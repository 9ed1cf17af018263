-- ===== src/Package/Visit/Protocol.antt =====
-- package/loader.py: the order of the calls that PackageLoader.load makes, as a state machine.
use swh_loader_core.Prelude.{List}
use swh_loader_core.Storage.{
  Call, origin_visit_status_add, snapshot_add, extid_add, flush, metadata_authority_add,
  metadata_fetcher_add, raw_extrinsic_metadata_add,
}
use swh_loader_core.Storage.Machine.{Machine, run_calls}

-- How far a visit has come.
pub data Phase : Type 0 where
  -- releases are loaded; the last call may have been a flush
  loading flushed : Phase
  -- the snapshot is sent, and then flushed
  snapshotted stored : Phase
  -- metadata is sent after that flush
  described : Phase
  -- the ExtIDs are sent, and then flushed
  registered registered_flushed : Phase
  -- the last flush, where no ExtIDs are sent
  stored_flushed : Phase
  -- the status is sent
  closed : Phase
  broken : Phase

unfoldable pub step : Phase → Call → Phase
step loading (snapshot_add _) = snapshotted
step loading flush = flushed
step loading (origin_visit_status_add _) = broken
step loading (extid_add _) = broken
step loading _ = loading
step flushed (snapshot_add _) = snapshotted
step flushed flush = flushed
step flushed (origin_visit_status_add _) = closed
step flushed (extid_add _) = broken
step flushed _ = loading
step snapshotted flush = stored
step snapshotted (snapshot_add _) = broken
step snapshotted (origin_visit_status_add _) = broken
step snapshotted (extid_add _) = broken
step snapshotted _ = snapshotted
step stored flush = stored_flushed
step stored (extid_add _) = registered
step stored (origin_visit_status_add _) = closed
step stored (metadata_authority_add _) = described
step stored (metadata_fetcher_add _) = described
step stored (raw_extrinsic_metadata_add _) = described
step described flush = stored_flushed
step described (extid_add _) = registered
step described (metadata_authority_add _) = described
step described (metadata_fetcher_add _) = described
step described (raw_extrinsic_metadata_add _) = described
step stored_flushed (origin_visit_status_add _) = closed
step registered flush = registered_flushed
step registered_flushed (origin_visit_status_add _) = closed
step _ _ = broken

unfoldable pub protocol : Machine Phase
protocol = record { first = loading; step = step }

-- The phase that a log, the latest call first, leads to.
unfoldable pub phase : List Call → Phase
unfolding run_calls
phase = run_calls loading step
