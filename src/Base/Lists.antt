-- ===== src/Base/Lists.antt =====
-- Lists searched by a Boolean test, as `iter().find`, `any`, `all` and `filter` do.
use Prim.Native.Nat.{ℕ, suc}
use mathlib.Core.Path.{◌≡◌, refl}
use mathlib.Core.Logic.{◌⊎◌, inl, inr}
use mathlib.Core.Bool.{Bool, true, false, ◌&&◌, ◌||◌}
use mathlib.Core.Option.{Option, none, some}
use mathlib.Core.List.{List, [], ◌∷◌, ◌++◌}
use native.Mathlib.Omega.{arith}
use millrace_rs.Base.Tests.{if◌then◌else◌, Bool-cases, test}

module _ {ℓ} {A : Type ℓ} where
  abbrev pub length : List A → ℕ
  length [] = 0
  length (x ∷ xs) = suc (length xs)

  abbrev pub is_empty : List A → Bool
  is_empty [] = true
  is_empty (x ∷ xs) = false

  unfoldable pub find : (A → Bool) → List A → Option A
  find p [] = none
  find p (x ∷ xs) = if p x then some x else find p xs

  unfoldable pub any : (A → Bool) → List A → Bool
  any p [] = false
  any p (x ∷ xs) = p x || any p xs

  unfoldable pub all : (A → Bool) → List A → Bool
  all p [] = true
  all p (x ∷ xs) = p x && all p xs

  unfoldable pub filter : (A → Bool) → List A → List A
  filter p [] = []
  filter p (x ∷ xs) = let rest = filter p xs in if p x then x ∷ rest else rest

  -- Membership as a type that can be matched.
  pub data Has (a : A) : List A → Type ℓ where
    here : {xs : List A} → Has a (a ∷ xs)
    there : {x : A} {xs : List A} → Has a xs → Has a (x ∷ xs)

  unfoldable pub contains : Discrete A → List A → A → Bool
  unfolding any
  contains d xs a = any (λ x. test (d x a)) xs

  abbrev pub All {κ} : (A → Type κ) → List A → Type κ
  All P [] = Unit
  All P (x ∷ xs) = P x × All P xs

module _ {ℓ} {A : Type ℓ} where
  -- What `find` returns is an element of the list, and passes the test.
  pub find-Has : (p : A → Bool) (xs : List A) (a : A) → find p xs ≡ some a → Has a xs × (p a ≡ true)
  unfolding find
  find-Has p [] a h = ground arith
  find-Has p (x ∷ xs) a h = elim (Bool-cases (p x)) [
    | inl e ↦ first x (ground arith) e
    | inr e ↦ later x (find-Has p xs a (ground arith))
  ]
    where
      first : (y : A) → y ≡ a → p y ≡ true → Has a (y ∷ xs) × (p a ≡ true)
      first y q e = (rw q here, rw q at e)

      later : (y : A) → Has a xs × (p a ≡ true) → Has a (y ∷ xs) × (p a ≡ true)
      later y r = (there r.0, r.1)

  pub Has-cons : (x y : A) (ys : List A) → Has x (y ∷ ys) → (x ≡ y) ⊎ Has x ys
  Has-cons x _ ys here = inl refl
  Has-cons x y ys (there m) = inr m

  pub find-none : (p : A → Bool) (xs : List A) → find p xs ≡ none → (a : A) → Has a xs → p a ≡ false
  unfolding find
  find-none p [] h a m = elim m [ ]
  find-none p (x ∷ xs) h _ here = ground arith
  find-none p (x ∷ xs) h a (there m) = find-none p xs (ground arith) a m

  pub any-Has : (p : A → Bool) (xs : List A) → any p xs ≡ true → (a : A) × Has a xs × (p a ≡ true)
  unfolding any
  any-Has p [] h = absurd (ground arith)
  any-Has p (x ∷ xs) h = elim (Bool-cases (p x)) [
    | inl e ↦ (x, here, e)
    | inr e ↦ let (a, m, q) = any-Has p xs (ground arith) in (a, there m, q)
  ]

  pub Has-any : (p : A → Bool) (xs : List A) (a : A) → Has a xs → p a ≡ true → any p xs ≡ true
  unfolding any
  Has-any p [] a m e = elim m [ ]
  Has-any p (x ∷ xs) _ here e = ground arith
  Has-any p (x ∷ xs) a (there m) e = ground (arith, Has-any p xs a m e)

  pub any-false : (p : A → Bool) (xs : List A) → any p xs ≡ false → (a : A) → Has a xs → p a ≡ false
  unfolding any
  any-false p [] h a m = elim m [ ]
  any-false p (x ∷ xs) h _ here = ground arith
  any-false p (x ∷ xs) h a (there m) = any-false p xs (ground arith) a m

  pub all-Has : (p : A → Bool) (xs : List A) → all p xs ≡ true → (a : A) → Has a xs → p a ≡ true
  unfolding all
  all-Has p [] h a m = elim m [ ]
  all-Has p (x ∷ xs) h _ here = ground arith
  all-Has p (x ∷ xs) h a (there m) = all-Has p xs (ground arith) a m

  pub Has-all : (p : A → Bool) (xs : List A) → ((a : A) → Has a xs → p a ≡ true) → all p xs ≡ true
  unfolding all
  Has-all p [] h = refl
  Has-all p (x ∷ xs) h = ground (arith, h x here, Has-all p xs (λ a m. h a (there m)))

  pub filter-Has :
      (p : A → Bool) (xs : List A) (a : A) → Has a (filter p xs) → Has a xs × (p a ≡ true)
  unfolding filter
  filter-Has p [] a m = elim m [ ]
  filter-Has p (x ∷ xs) a m = elim (Bool-cases (p x)) [
    | inr e ↦ let (n, k) = filter-Has p xs a (rw e at m) in (there n, k)
    | inl e ↦ elim (Has-cons a x (filter p xs) (rw e at m)) [
      | inl same ↦ (rw same here, rw same e)
      | inr later ↦ let (n, k) = filter-Has p xs a later in (there n, k)
    ]
  ]

  pub Has-filter :
      (p : A → Bool) (xs : List A) (a : A) → Has a xs → p a ≡ true → Has a (filter p xs)
  unfolding filter
  Has-filter p [] a m h = elim m [ ]
  Has-filter p (x ∷ xs) _ here h = rw h here
  Has-filter p (x ∷ xs) a (there m) h = elim (Bool-cases (p x)) [
    | inl e ↦ rw e (there (Has-filter p xs a m h))
    | inr e ↦ rw e (Has-filter p xs a m h)
  ]

  pub Has-append_left : (xs ys : List A) (a : A) → Has a xs → Has a (xs ++ ys)
  Has-append_left [] ys a m = elim m [ ]
  Has-append_left (x ∷ xs) ys _ here = here
  Has-append_left (x ∷ xs) ys a (there m) = there (Has-append_left xs ys a m)

  pub Has-append_right : (xs ys : List A) (a : A) → Has a ys → Has a (xs ++ ys)
  Has-append_right [] ys a m = m
  Has-append_right (x ∷ xs) ys a m = there (Has-append_right xs ys a m)

  pub Has-append : (xs ys : List A) (a : A) → Has a (xs ++ ys) → Has a xs ⊎ Has a ys
  Has-append [] ys a m = inr m
  Has-append (x ∷ xs) ys _ here = inl here
  Has-append (x ∷ xs) ys a (there m) = elim (Has-append xs ys a m) [
    | inl l ↦ inl (there l)
    | inr r ↦ inr r
  ]

module _ {ℓ} {A : Type ℓ} (d : Discrete A) where
  pub contains-Has : (xs : List A) (a : A) → contains d xs a ≡ true → Has a xs
  unfolding contains any
  contains-Has [] a h = absurd (ground arith)
  contains-Has (x ∷ xs) a h =
      elim (d x a) as (λ t. (test t || any (λ y. test (d y a)) xs) ≡ true → Has a (x ∷ xs)) [
        | yes e ↦ λ _. rw e here
        | no _ ↦ λ k. there (contains-Has xs a k)
      ]
        h

  pub Has-contains : (xs : List A) (a : A) → Has a xs → contains d xs a ≡ true
  unfolding contains
  Has-contains xs a m = Has-any (λ x. test (d x a)) xs a m (self a)
    where
      on : (b : A) (t : Dec (b ≡ b)) → test t ≡ true
      on b (yes _) = refl
      on b (no n) = absurd (n refl)

      self : (b : A) → test (d b b) ≡ true
      self b = on b (d b b)
