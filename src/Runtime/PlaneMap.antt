-- ===== src/Runtime/PlaneMap.antt =====
-- `HashMap<Plane, V>`: a table over the three planes. The runtime never iterates over one in its
-- own order, so the value under each plane is all that is modelled.
use millrace_rs.Base.{◌≡◌, ◌≢◌, refl, Bool, true, false, Option, none, some, arith}
use millrace_rs.Contracts.Enums.{Plane}

pub record PlaneMap {ℓ} (V : Type ℓ) : Type ℓ where
  pub at_execution : Option V
  pub at_planning : Option V
  pub at_learning : Option V

module _ {ℓ} {V : Type ℓ} where
  abbrev pub empty : PlaneMap V
  empty = record { at_execution = none; at_planning = none; at_learning = none }

  unfoldable pub get : PlaneMap V → Plane → Option V
  get m Plane.execution = m.at_execution
  get m Plane.planning = m.at_planning
  get m Plane.learning = m.at_learning

  put : PlaneMap V → Plane → Option V → PlaneMap V
  put m Plane.execution v = record m { at_execution = v }
  put m Plane.planning v = record m { at_planning = v }
  put m Plane.learning v = record m { at_learning = v }

  unfoldable pub insert : PlaneMap V → Plane → V → PlaneMap V
  unfolding put
  insert m p v = put m p (some v)

  unfoldable pub remove : PlaneMap V → Plane → PlaneMap V
  unfolding put
  remove m p = put m p none

  unfoldable pub is_empty : PlaneMap V → Bool
  is_empty m = all_none m.at_execution m.at_planning m.at_learning
    where
      all_none : Option V → Option V → Option V → Bool
      all_none none none none = true
      all_none _ _ _ = false

  pub get-insert_self : (m : PlaneMap V) (p : Plane) (v : V) → get (insert m p v) p ≡ some v
  unfolding get insert
  get-insert_self m Plane.execution v = refl
  get-insert_self m Plane.planning v = refl
  get-insert_self m Plane.learning v = refl

  pub get-remove_self : (m : PlaneMap V) (p : Plane) → get (remove m p) p ≡ none
  unfolding get remove
  get-remove_self m Plane.execution = refl
  get-remove_self m Plane.planning = refl
  get-remove_self m Plane.learning = refl

  pub get-insert_ne :
      (m : PlaneMap V) (p q : Plane) (v : V) → p ≢ q → get (insert m p v) q ≡ get m q
  unfolding get insert
  get-insert_ne m Plane.execution q v h = ground arith
  get-insert_ne m Plane.planning q v h = ground arith
  get-insert_ne m Plane.learning q v h = ground arith

  pub get-remove_ne : (m : PlaneMap V) (p q : Plane) → p ≢ q → get (remove m p) q ≡ get m q
  unfolding get remove
  get-remove_ne m Plane.execution q h = ground arith
  get-remove_ne m Plane.planning q h = ground arith
  get-remove_ne m Plane.learning q h = ground arith
