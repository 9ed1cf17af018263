-- ===== src/Core/Base/Load/Protocol.antt =====
-- core/loader.py: the order of the calls that BaseLoader.load makes, as a state machine.
use swh_loader_core.Prelude.{Bool, true, false, List}
use swh_loader_core.Storage.Machine.{Machine, run_calls}
use swh_loader_core.Storage.{
  pre_cleanup, prepare, fetch_data, process_data, store_data, build_partial_snapshot, visit_status,
  post_load, cleanup, load_status, Call, method, origin_add, origin_visit_add,
  origin_visit_status_add, snapshot_add, flush, metadata_authority_add, metadata_fetcher_add,
  raw_extrinsic_metadata_add,
}

-- How far a visit has come.
pub data Phase : Type 0 where
  fresh pre_cleaned origin_known visited : Phase
  authorities_known fetchers_known described : Phase
  prepared fetched processed stored : Phase
  partial_built partial_stored partial_recorded : Phase
  concluded recorded posted : Phase
  failure_recorded failure_posted : Phase
  flushed cleaned_up reported : Phase
  broken : Phase

-- `prepare` has been called, and the `finally` block has not begun.
abbrev pub is_running : Phase → Bool
is_running prepared = true
is_running fetched = true
is_running processed = true
is_running stored = true
is_running partial_built = true
is_running partial_stored = true
is_running partial_recorded = true
is_running concluded = true
is_running recorded = true
is_running posted = true
is_running _ = false

-- The try statement is over: by success, or by the `except` block.
abbrev pub is_over : Phase → Bool
is_over posted = true
is_over failure_recorded = true
is_over failure_posted = true
is_over recorded = true
is_over partial_recorded = true
is_over _ = false

abbrev pub before_prepare : Phase → Bool
before_prepare visited = true
before_prepare authorities_known = true
before_prepare fetchers_known = true
before_prepare described = true
before_prepare _ = false

-- A new round of the loop may begin.
abbrev pub is_round_start : Phase → Bool
is_round_start prepared = true
is_round_start stored = true
is_round_start partial_built = true
is_round_start partial_recorded = true
is_round_start _ = false

abbrev after_status : Phase → Phase
after_status concluded = recorded
after_status partial_stored = partial_recorded
after_status p = if_running (is_running p)
  where
    if_running : Bool → Phase
    if_running true = failure_recorded
    if_running false = broken

abbrev guarded : Bool → Phase → Phase
guarded true p = p
guarded false p = broken

unfoldable pub step : Phase → Call → Phase
step fresh (method pre_cleanup) = pre_cleaned
step pre_cleaned (origin_add _) = origin_known
step origin_known (origin_visit_add _) = visited
step visited (metadata_authority_add _) = authorities_known
step authorities_known (metadata_fetcher_add _) = fetchers_known
step fetchers_known (raw_extrinsic_metadata_add _) = described
step fetched (method process_data) = processed
step processed (method store_data) = stored
step stored (method build_partial_snapshot) = partial_built
step partial_built (snapshot_add _) = partial_stored
step recorded (method (post_load true)) = posted
step stored (method visit_status) = concluded
step flushed (method cleanup) = cleaned_up
step cleaned_up (method load_status) = reported
step p (method prepare) = guarded (before_prepare p) prepared
step p (method fetch_data) = guarded (is_round_start p) fetched
step p (origin_visit_status_add _) = after_status p
step p (method (post_load false)) = guarded (is_over p) failure_posted
step p flush = guarded (is_over p) flushed
step p _ = broken

unfoldable pub protocol : Machine Phase
protocol = record { first = fresh; step = step }

-- The phase that a log, the latest call first, leads to.
unfoldable pub phase : List Call → Phase
unfolding run_calls
phase = run_calls fresh step
