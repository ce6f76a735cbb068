-- ===== src/Runtime/Pause.antt =====
-- runtime/tick.rs: how usage governance pauses the runtime beside the operator.
pub mod Sources
use millrace_rs.Base.{
  Bool, true, false, not, List, [], ◌∷◌, ◌++◌, filter, is_empty, contains, test, if◌then◌else◌,
}
use millrace_rs.Runtime.State.{PauseSource, RuntimeSnapshot}

unfoldable pub PauseSource-discrete : Discrete PauseSource
PauseSource-discrete = hlevel

unfoldable pub order_pause_sources : List PauseSource → List PauseSource
order_pause_sources sources =
    (if contains PauseSource-discrete sources PauseSource.operator
      then PauseSource.operator ∷ []
      else [])
    ++ (if contains PauseSource-discrete sources PauseSource.usage_governance
        then PauseSource.usage_governance ∷ []
        else [])

unfoldable pub has_governance_pause_source : RuntimeSnapshot → Bool
has_governance_pause_source snapshot =
    contains PauseSource-discrete snapshot.pause_sources PauseSource.usage_governance

unfoldable pub add_governance_pause_source : RuntimeSnapshot → RuntimeSnapshot
add_governance_pause_source snapshot = record snapshot {
  pause_sources = order_pause_sources (
      if has_governance_pause_source snapshot
      then snapshot.pause_sources
      else (snapshot.pause_sources ++ PauseSource.usage_governance ∷ []));
  paused = true;
}

unfoldable pub retained : List PauseSource → List PauseSource
retained sources =
    filter (λ source. not (test (PauseSource-discrete source PauseSource.usage_governance))) sources

unfoldable pub remove_governance_pause_source : RuntimeSnapshot → RuntimeSnapshot
unfolding retained
remove_governance_pause_source snapshot =
    let sources = order_pause_sources (retained snapshot.pause_sources) in
    record snapshot { pause_sources = sources; paused = not (is_empty sources) }
