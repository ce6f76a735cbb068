-- ===== src/Base/Sort.antt =====
-- `sort_by` on a text key: a stable insertion sort by the texts' code points.
use Prim.Native.Nat.{Ordering}
use Prim.Native.String.{String, compare}
use mathlib.Core.Bool.{Bool, true, false}
use mathlib.Core.List.{List, [], ◌∷◌}
use mathlib.Core.Logic.{inl, inr}
use millrace_rs.Base.Tests.{if◌then◌else◌, Bool-cases}
use millrace_rs.Base.Lists.{Has, here, there, Has-cons}

abbrev pub text_lt : String → String → Bool
text_lt s t = elim (compare s t) [ Ordering.lt ↦ true | _ ↦ false ]

module _ {ℓ} {A : Type ℓ} where
  unfoldable pub insert_sorted : (A → String) → A → List A → List A
  insert_sorted key a [] = a ∷ []
  insert_sorted key a (x ∷ xs) =
      let rest = insert_sorted key a xs in if text_lt (key x) (key a) then x ∷ rest else a ∷ x ∷ xs

  unfoldable pub sort_by : (A → String) → List A → List A
  sort_by key [] = []
  sort_by key (x ∷ xs) = insert_sorted key x (sort_by key xs)

  pub Has-insert_sorted_new :
      (key : A → String) (a : A) (xs : List A) → Has a (insert_sorted key a xs)
  unfolding insert_sorted
  Has-insert_sorted_new key a [] = here
  Has-insert_sorted_new key a (y ∷ xs) = elim (Bool-cases (text_lt (key y) (key a))) [
    | inl e ↦ rw e (there (Has-insert_sorted_new key a xs))
    | inr e ↦ rw e here
  ]

  pub Has-insert_sorted_old :
      (key : A → String) (a x : A) (xs : List A) → Has x xs → Has x (insert_sorted key a xs)
  unfolding insert_sorted
  Has-insert_sorted_old key a x [] m = there m
  Has-insert_sorted_old key a _ (y ∷ xs) here = elim (Bool-cases (text_lt (key y) (key a))) [
    | inl e ↦ rw e here
    | inr e ↦ rw e (there here)
  ]
  Has-insert_sorted_old key a x (y ∷ xs) (there m) = elim (Bool-cases (text_lt (key y) (key a))) [
    | inl e ↦ rw e (there (Has-insert_sorted_old key a x xs m))
    | inr e ↦ rw e (there (there m))
  ]

  pub insert_sorted-Has :
      (key : A → String) (a x : A) (xs : List A) → Has x (insert_sorted key a xs) → Has x (a ∷ xs)
  unfolding insert_sorted
  insert_sorted-Has key a x [] m = m
  insert_sorted-Has key a x (y ∷ xs) m = elim (Bool-cases (text_lt (key y) (key a))) [
    | inl e ↦ later (insert_sorted-Has key a x xs) (rw e at m)
    | inr e ↦ rw e at m
  ]
    where
      later :
          (Has x (insert_sorted key a xs) → Has x (a ∷ xs))
          → Has x (y ∷ insert_sorted key a xs)
          → Has x (a ∷ y ∷ xs)
      later ih k = elim (Has-cons x y _ k) [
        | inl e ↦ rw e (there here)
        | inr n ↦ elim (Has-cons x a xs (ih n)) [ inl e ↦ rw e here | inr o ↦ there (there o) ]
      ]

  -- Sorting keeps which elements there are.
  pub Has-sort_by : (key : A → String) (x : A) (xs : List A) → Has x xs → Has x (sort_by key xs)
  unfolding sort_by
  Has-sort_by key x [] m = m
  Has-sort_by key _ (y ∷ xs) here = Has-insert_sorted_new key y (sort_by key xs)
  Has-sort_by key x (y ∷ xs) (there m) =
      Has-insert_sorted_old key y x (sort_by key xs) (Has-sort_by key x xs m)

  pub sort_by-Has : (key : A → String) (x : A) (xs : List A) → Has x (sort_by key xs) → Has x xs
  unfolding sort_by
  sort_by-Has key x [] m = m
  sort_by-Has key x (y ∷ xs) m =
      head_or_tail (sort_by-Has key x xs) (insert_sorted-Has key y x (sort_by key xs) m)
    where
      head_or_tail :
          (Has x (sort_by key xs) → Has x xs) → Has x (y ∷ sort_by key xs) → Has x (y ∷ xs)
      head_or_tail ih k = elim (Has-cons x y _ k) [ inl e ↦ rw e here | inr n ↦ there (ih n) ]
