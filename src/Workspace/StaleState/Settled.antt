-- ===== src/Workspace/StaleState/Settled.antt =====
-- When the active items and the snapshot agree.
use millrace_rs.Base.{
  String, ◌==◌, eq_iff, ◌≡◌, ◌↔◌, refl, inl, inr, ap, Bool-cases, true, false, Option, none, some,
  List, [], ◌∷◌, any, is_empty, if◌then◌else◌, ok, arith,
}
use millrace_rs.Base.Sort.{insert_sorted}
use millrace_rs.Workspace.Files.{Files, ◌>>=◌}
use millrace_rs.Workspace.Queue.{WorkspacePaths}
use millrace_rs.Workspace.Claims.{Host}
use millrace_rs.Workspace.Claims.Listing.{ids_in_directory}
use millrace_rs.Workspace.StaleState.{
  StaleActiveState, set_of, stale_state, stale_reasons, is_among, detect_stale_state,
  detect_execution_stale_state,
}

set_of-nonempty : (x : String) (xs : List String) → is_empty (set_of (x ∷ xs)) ≡ false
unfolding set_of insert_sorted any
set_of-nonempty x xs = on (set_of xs)
  where
    added : (rest : List String) → is_empty (insert_sorted (λ y. y) x rest) ≡ false
    added [] = refl
    added (y ∷ rest) = ground arith

    on :
        (rest : List String)
        → is_empty (if any (λ y. y == x) rest then rest else insert_sorted (λ y. y) x rest) ≡ false
    on [] = refl
    on (y ∷ rest) = elim (Bool-cases (any (λ z. z == x) (y ∷ rest))) [
      | inl e ↦ rw e refl
      | inr e ↦ rw e (added (y ∷ rest))
    ]

-- Nothing is active and the snapshot names nothing, or the snapshot names the one active item, which is not queued too.
abbrev pub Agrees : List String → List String → Option String → Type 0
Agrees active queued none = active ≡ []
Agrees active queued (some item_id) =
    (active ≡ item_id ∷ []) × (any (λ i. i == item_id) queued ≡ false)

not_stale : (reasons : List String) → (stale_state reasons).is_stale ≡ false → reasons ≡ []
unfolding stale_state set_of
not_stale [] h = refl
not_stale (x ∷ xs) h = absurd (let k = set_of-nonempty x xs in ground arith)

settled :
    (active queued : List String) (snapshot_active_id : Option String)
    → (stale_state (
        stale_reasons
          (λ a b. a == b)
          active
          snapshot_active_id
          (is_among queued snapshot_active_id))).is_stale
      ≡ false
    → Agrees active queued snapshot_active_id
unfolding stale_reasons
settled [] queued none h = refl
settled (a ∷ []) queued none h = absurd (let k = not_stale _ h in ground arith)
settled (a ∷ b ∷ active) queued none h = absurd (let k = not_stale _ h in ground arith)
settled [] queued (some item_id) h = absurd (let k = not_stale _ h in ground arith)
settled (a ∷ []) queued (some item_id) h =
    let k = not_stale _ h in
    let same = eq_iff a item_id in (ap (λ i. i ∷ []) (ground arith), ground arith)
settled (a ∷ b ∷ active) queued (some item_id) h = absurd (let k = not_stale _ h in ground arith)

unsettled :
    (active queued : List String) (snapshot_active_id : Option String)
    → Agrees active queued snapshot_active_id
    → (stale_state (
        stale_reasons
          (λ a b. a == b)
          active
          snapshot_active_id
          (is_among queued snapshot_active_id))).is_stale
      ≡ false
unfolding stale_reasons stale_state set_of
unsettled active queued none h = rw h refl
unsettled active queued (some item_id) (h, k) =
    let same : (item_id == item_id) ≡ true = (eq_iff item_id item_id).1 refl in rw (h, k, same) refl

-- The check of the execution plane changes no file, and finds the active state not stale exactly if the snapshot agrees
-- with the documents of the active and the queued tasks: it names none and none is active, or it names the only active
-- one, which is not queued.
pub detect_execution-settled :
    (host : Host) (paths : WorkspacePaths) (active queued : List String)
    (snapshot_active_id : Option String) (files : Files)
    → ids_in_directory host paths.tasks_active_dir files ≡ (ok active, files)
    → ids_in_directory host paths.tasks_queue_dir files ≡ (ok queued, files)
    → (s : StaleActiveState) × (detect_execution_stale_state host paths snapshot_active_id files
        ≡ (ok s, files))
      × ((s.is_stale ≡ false) ↔ Agrees active queued snapshot_active_id)
unfolding detect_execution_stale_state detect_stale_state ◌>>=◌
detect_execution-settled host paths active queued snapshot_active_id files a q = (
  stale_state (
      stale_reasons (λ x y. x == y) active snapshot_active_id (is_among queued snapshot_active_id)),
  rw (a, q) refl,
  (settled active queued snapshot_active_id, unsettled active queued snapshot_active_id),
)
