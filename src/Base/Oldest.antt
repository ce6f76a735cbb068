-- ===== src/Base/Oldest.antt =====
-- `sort_by` on a pair of texts, such as the time at which a document was created and its id, as a stable insertion
-- sort: the element that stands first afterwards is one of the least.
use Prim.Native.String.{String}
use mathlib.Core.Path.{◌≡◌}
use mathlib.Core.Logic.{inl, inr}
use mathlib.Core.Bool.{Bool, true, false, not, ◌&&◌, ◌||◌}
use mathlib.Core.Option.{Option, none, some}
use mathlib.Core.List.{List, [], ◌∷◌}
use native.Mathlib.Omega.{arith}
use millrace_rs.Base.Tests.{if◌then◌else◌, Bool-cases}
use millrace_rs.Base.Lists.{Has, here, there, Has-cons}
use millrace_rs.Base.Sort.{text_lt}
use millrace_rs.Base.TextOrder.{text_lt-asym, text_lt-not_trans}

-- `(a.0, a.1).cmp(&(b.0, b.1))` is `Less`.
unfoldable pub pair_lt : String × String → String × String → Bool
pair_lt a b = text_lt a.0 b.0 || (not (text_lt b.0 a.0) && text_lt a.1 b.1)

pub pair_lt-asym : (a b : String × String) → pair_lt a b ≡ true → pair_lt b a ≡ false
unfolding pair_lt
pair_lt-asym a b h =
    ground (arith, text_lt-asym a.0 b.0, text_lt-asym b.0 a.0, text_lt-asym a.1 b.1)

pub pair_lt-not_trans :
    (a b c : String × String) → pair_lt a b ≡ false → pair_lt b c ≡ false → pair_lt a c ≡ false
unfolding pair_lt
pair_lt-not_trans a b c h k = ground (
  arith,
  text_lt-not_trans a.0 b.0 c.0,
  text_lt-not_trans a.1 b.1 c.1,
  text_lt-not_trans b.0 c.0 a.0,
  text_lt-not_trans c.0 a.0 b.0,
  text_lt-asym a.0 b.0,
  text_lt-asym b.0 a.0,
  text_lt-asym b.0 c.0,
  text_lt-asym c.0 b.0,
  text_lt-asym a.0 c.0,
)

unfoldable pub triple_lt : String × (String × String) → String × (String × String) → Bool
triple_lt a b = text_lt a.0 b.0 || (not (text_lt b.0 a.0) && pair_lt a.1 b.1)

module _ {ℓ} {A : Type ℓ} where
  unfoldable pub insert_by : (A → A → Bool) → A → List A → List A
  insert_by lt a [] = a ∷ []
  insert_by lt a (x ∷ xs) = let rest = insert_by lt a xs in if lt x a then x ∷ rest else a ∷ x ∷ xs

  unfoldable pub sort_with : (A → A → Bool) → List A → List A
  sort_with lt [] = []
  sort_with lt (x ∷ xs) = insert_by lt x (sort_with lt xs)

  abbrev pub first : List A → Option A
  first [] = none
  first (x ∷ xs) = some x

  -- The first element of a list after it is sorted.
  unfoldable pub oldest : (A → A → Bool) → List A → Option A
  oldest lt xs = first (sort_with lt xs)

module _ {ℓ} {A : Type ℓ} (lt : A → A → Bool) (asym : (a b : A) → lt a b ≡ true → lt b a ≡ false)
    (not_trans : (a b c : A) → lt a b ≡ false → lt b c ≡ false → lt a c ≡ false) where
  -- The first element of `ys`, if it has one, is in `xs`, and no element of `xs` comes before it.
  Leads : List A → List A → Type ℓ
  Leads [] xs = (x : A) → Has x xs → ⊥
  Leads (m ∷ ys) xs = Has m xs × ((x : A) → Has x xs → lt x m ≡ false)

  irrefl : (a : A) → lt a a ≡ false
  irrefl a = elim (Bool-cases (lt a a)) [ inl e ↦ asym a a e | inr e ↦ e ]

  Leads-insert_by : (a : A) (ys xs : List A) → Leads ys xs → Leads (insert_by lt a ys) (a ∷ xs)
  unfolding insert_by Leads
  Leads-insert_by a [] xs h =
      (here, λ x m. elim (Has-cons x a xs m) [ inl e ↦ rw e (irrefl a) | inr n ↦ absurd (h x n) ])
  Leads-insert_by a (y ∷ ys) xs h = elim (Bool-cases (lt y a)) [
    | inl e ↦
        rw e (
          there h.0,
          λ x m. elim (Has-cons x a xs m) [ inl k ↦ rw k (asym y a e) | inr n ↦ h.1 x n ],
        )
    | inr e ↦ rw e (
      here,
      λ x m. elim (Has-cons x a xs m) [
        | inl k ↦ rw k (irrefl a)
        | inr n ↦ not_trans x y a (h.1 x n) e
      ],
    )
  ]

  Leads-sort_with : (xs : List A) → Leads (sort_with lt xs) xs
  unfolding sort_with Leads
  Leads-sort_with [] = λ x m. elim m [ ]
  Leads-sort_with (x ∷ xs) = Leads-insert_by x (sort_with lt xs) xs (Leads-sort_with xs)

  pub oldest-least :
      (xs : List A) (m : A)
      → oldest lt xs ≡ some m
      → Has m xs × ((x : A) → Has x xs → lt x m ≡ false)
  unfolding oldest Leads
  oldest-least xs m h = on (sort_with lt xs) (Leads-sort_with xs) h
    where
      on :
          (ys : List A)
          → Leads ys xs
          → first ys ≡ some m
          → Has m xs × ((x : A) → Has x xs → lt x m ≡ false)
      on [] l e = absurd (ground arith)
      on (y ∷ ys) l e = let same : y ≡ m = ground arith in rw (← same) l

  pub oldest-none : (xs : List A) → oldest lt xs ≡ none → (x : A) → Has x xs → ⊥
  unfolding oldest Leads
  oldest-none xs h = on (sort_with lt xs) (Leads-sort_with xs) h
    where
      on : (ys : List A) → Leads ys xs → first ys ≡ none → (x : A) → Has x xs → ⊥
      on [] l e = l
      on (y ∷ ys) l e = absurd (ground arith)
