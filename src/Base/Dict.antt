-- ===== src/Base/Dict.antt =====
-- `HashMap<String, V>`: an association list. A write keeps the place of a key that is there.
use text.Mathlib.Text.{◌==◌}
use text.Mathlib.TextEquality.{eq_iff}
use Prim.Native.String.{String}
use mathlib.Core.Path.{◌≡◌, refl, ◌∙◌}
use mathlib.Core.Logic.{inl, inr}
use mathlib.Core.Bool.{true}
use mathlib.Core.Option.{Option, none, some}
use mathlib.Core.List.{List, [], ◌∷◌}
use native.Mathlib.Omega.{arith}
use millrace_rs.Base.Tests.{if◌then◌else◌, Bool-cases}
use millrace_rs.Base.Lists.{All}

module _ {ℓ} {V : Type ℓ} where
  unfoldable pub lookup : String → List (String × V) → Option V
  lookup key [] = none
  lookup key (entry ∷ entries) =
      let later = lookup key entries in if entry.0 == key then some entry.1 else later

  unfoldable pub insert : String → V → List (String × V) → List (String × V)
  insert key value [] = (key, value) ∷ []
  insert key value (entry ∷ entries) =
      let later = insert key value entries in
      if entry.0 == key then (key, value) ∷ entries else entry ∷ later

  -- A write is read back at its key, and changes no other key.
  pub lookup-insert :
      (key other : String) (value : V) (entries : List (String × V))
      → lookup other (insert key value entries)
        ≡ (if key == other then some value else lookup other entries)
  unfolding lookup insert
  lookup-insert key other value [] = refl
  lookup-insert key other value (entry ∷ entries) =
      let later = lookup-insert key other value entries in
      let at_key = eq_iff entry.0 key in
      let at_other = eq_iff entry.0 other in let keys = eq_iff key other in ground arith

  pub lookup-insert_self :
      (key : String) (value : V) (entries : List (String × V))
      → lookup key (insert key value entries) ≡ some value
  lookup-insert_self key value entries =
      let same : (key == key) ≡ true = (eq_iff key key).1 refl in
      lookup-insert key key value entries ∙ (rw same refl)

  -- What holds of every entry still does after the write of an entry of which it holds.
  pub All-insert {κ} :
      (P : String × V → Type κ) (k : String) (v : V) (m : List (String × V))
      → P (k, v)
      → All P m
      → All P (insert k v m)
  unfolding insert
  All-insert P key value [] new old = (new, tt)
  All-insert P key value (entry ∷ entries) new old = elim (Bool-cases (entry.0 == key)) [
    | inl e ↦ rw e (new, old.1)
    | inr e ↦ rw e (old.0, All-insert P key value entries new old.1)
  ]

  pub All-lookup {κ} :
      (P : String × V → Type κ) (k : String) (v : V) (m : List (String × V))
      → All P m
      → lookup k m ≡ some v
      → P (k, v)
  unfolding lookup
  All-lookup P k v [] a e = absurd (ground arith)
  All-lookup P k v ((j, w) ∷ m) a e = elim (Bool-cases (j == k)) [
    | inl b ↦
        let same_key : j ≡ k = (eq_iff j k).0 b in
        let same : w ≡ v = ground arith in rw (← same_key, ← same) a.0
    | inr b ↦ All-lookup P k v m a.1 (ground arith)
  ]

module _ {ℓ} {V : Type ℓ} where
  unfoldable pub remove : String → List (String × V) → List (String × V)
  remove key [] = []
  remove key (entry ∷ entries) =
      let later = remove key entries in if entry.0 == key then later else entry ∷ later

  pub lookup-remove_self :
      (key : String) (entries : List (String × V)) → lookup key (remove key entries) ≡ none
  unfolding lookup remove
  lookup-remove_self key [] = refl
  lookup-remove_self key (entry ∷ entries) = elim (Bool-cases (entry.0 == key)) [
    | inl e ↦ rw e (lookup-remove_self key entries)
    | inr e ↦ rw (e, e) (lookup-remove_self key entries)
  ]
