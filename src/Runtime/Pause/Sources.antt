-- ===== src/Runtime/Pause/Sources.antt =====
-- The pause sources after usage governance has paused or resumed the runtime.
use millrace_rs.Base.{
  ◌≡◌, refl, ◌∙◌, inl, inr, Bool, true, false, Bool-cases, List, [], ◌∷◌, ◌++◌, filter, contains,
  any, if◌then◌else◌,
}
use millrace_rs.Runtime.State.{PauseSource, RuntimeSnapshot}
use millrace_rs.Runtime.Pause.{
  PauseSource-discrete, order_pause_sources, has_governance_pause_source,
  add_governance_pause_source, remove_governance_pause_source, retained,
}

abbrev pub has : List PauseSource → PauseSource → Bool
has sources source = contains PauseSource-discrete sources source

two : Bool → Bool → List PauseSource
two o u =
    (if o then PauseSource.operator ∷ [] else [])
    ++ (if u then PauseSource.usage_governance ∷ [] else [])

two-operator : (o u : Bool) → has (two o u) PauseSource.operator ≡ o
unfolding two contains any PauseSource-discrete
two-operator true u = refl
two-operator false true = refl
two-operator false false = refl

two-usage : (o u : Bool) → has (two o u) PauseSource.usage_governance ≡ u
unfolding two contains any PauseSource-discrete
two-usage true true = refl
two-usage true false = refl
two-usage false true = refl
two-usage false false = refl

-- Ordering the sources keeps which ones there are.
pub order-contains :
    (sources : List PauseSource) (source : PauseSource)
    → has (order_pause_sources sources) source ≡ has sources source
unfolding order_pause_sources two
order-contains sources PauseSource.operator =
    two-operator (has sources PauseSource.operator) (has sources PauseSource.usage_governance)
order-contains sources PauseSource.usage_governance =
    two-usage (has sources PauseSource.operator) (has sources PauseSource.usage_governance)

retained-operator :
    (sources : List PauseSource)
    → has (retained sources) PauseSource.operator ≡ has sources PauseSource.operator
unfolding retained filter contains any PauseSource-discrete
retained-operator [] = refl
retained-operator (PauseSource.operator ∷ sources) = refl
retained-operator (PauseSource.usage_governance ∷ sources) = retained-operator sources

retained-usage :
    (sources : List PauseSource) → has (retained sources) PauseSource.usage_governance ≡ false
unfolding retained filter contains any PauseSource-discrete
retained-usage [] = refl
retained-usage (PauseSource.operator ∷ sources) = retained-usage sources
retained-usage (PauseSource.usage_governance ∷ sources) = retained-usage sources

append-operator :
    (sources : List PauseSource)
    → has (sources ++ PauseSource.usage_governance ∷ []) PauseSource.operator
      ≡ has sources PauseSource.operator
unfolding contains any PauseSource-discrete
append-operator [] = refl
append-operator (PauseSource.operator ∷ sources) = refl
append-operator (PauseSource.usage_governance ∷ sources) = append-operator sources

append-usage :
    (sources : List PauseSource)
    → has (sources ++ PauseSource.usage_governance ∷ []) PauseSource.usage_governance ≡ true
unfolding contains any PauseSource-discrete
append-usage [] = refl
append-usage (PauseSource.operator ∷ sources) = append-usage sources
append-usage (PauseSource.usage_governance ∷ sources) = refl

-- When usage governance pauses the runtime, the runtime is paused, usage governance is among the
-- sources, and the operator is among them exactly if it was before.
pub add_governance-sources :
    (s : RuntimeSnapshot)
    → ((add_governance_pause_source s).paused ≡ true)
      × (has_governance_pause_source (add_governance_pause_source s) ≡ true)
      × (has (add_governance_pause_source s).pause_sources PauseSource.operator
          ≡ has s.pause_sources PauseSource.operator)
unfolding add_governance_pause_source has_governance_pause_source
add_governance-sources s = elim (Bool-cases (has s.pause_sources PauseSource.usage_governance)) [
  | inl e ↦ (
    refl,
    rw e (order-contains s.pause_sources PauseSource.usage_governance ∙ e),
    rw e (order-contains s.pause_sources PauseSource.operator),
  )
  | inr e ↦ (
    refl,
    rw e (order-contains _ PauseSource.usage_governance ∙ append-usage s.pause_sources),
    rw e (order-contains _ PauseSource.operator ∙ append-operator s.pause_sources),
  )
]

-- What is left of the sources once usage governance has resumed: the operator's pause, if there is one.
abbrev pub operator_only : RuntimeSnapshot → List PauseSource
operator_only s = if has s.pause_sources PauseSource.operator then PauseSource.operator ∷ [] else []

ordered_operator :
    (sources : List PauseSource)
    → has sources PauseSource.usage_governance ≡ false
    → order_pause_sources sources
      ≡ (if has sources PauseSource.operator then PauseSource.operator ∷ [] else [])
unfolding order_pause_sources
ordered_operator sources u = elim (Bool-cases (has sources PauseSource.operator)) [
  | inl e ↦ rw (e, u) refl
  | inr e ↦ rw (e, u) refl
]

-- When usage governance resumes the runtime, only the operator's pause is left, and the runtime stays
-- paused exactly if the operator has paused it.
pub remove_governance-sources :
    (s : RuntimeSnapshot)
    → ((remove_governance_pause_source s).pause_sources ≡ operator_only s)
      × ((remove_governance_pause_source s).paused ≡ has s.pause_sources PauseSource.operator)
unfolding remove_governance_pause_source
remove_governance-sources s =
    let left = ordered_operator (retained s.pause_sources) (retained-usage s.pause_sources) in
    let kept = retained-operator s.pause_sources in
    elim (Bool-cases (has s.pause_sources PauseSource.operator)) [
      | inl e ↦ (rw (left, kept, e) refl, rw (left, kept, e) refl)
      | inr e ↦ (rw (left, kept, e) refl, rw (left, kept, e) refl)
    ]

-- When usage governance pauses the runtime and then resumes it, the operator's pause is as it was: the
-- runtime is paused afterwards exactly if the operator had paused it.
pub remove-add :
    (s : RuntimeSnapshot)
    → let resumed = remove_governance_pause_source (add_governance_pause_source s) in
      (resumed.pause_sources ≡ operator_only s)
      × (resumed.paused ≡ has s.pause_sources PauseSource.operator)
remove-add s =
    let (paused, governed, kept) = add_governance-sources s in
    let (left, still) = remove_governance-sources (add_governance_pause_source s) in
    (rw kept at left, still ∙ kept)
