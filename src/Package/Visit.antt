-- ===== src/Package/Visit.antt =====
-- package/loader.py: PackageLoader.load, from the origin visit to its final status.
pub mod Protocol
pub mod Loop
pub mod Refusal
pub mod Order
pub mod Samples
use swh_loader_core.Prelude.{
  ℕ, String, true, false, Option, none, some, List, [], ◌∷◌, map, is_empty, ◌⊎◌, inl, inr,
  string_eq, ◌==◌,
}
use swh_loader_core.Effects.{Exec, pure, try_except, is_not_found, ◌>>=◌, ◌>>◌}
use swh_loader_core.Model.{Snapshot, ExtId, OriginVisit, TaskResult, Identifiers}
use swh_loader_core.Storage.{
  Storage, Logged, origin_add, origin_visit_add, extid_add, flush, call, read,
}
use swh_loader_core.Core.Base.Init.{Config}
use swh_loader_core.Core.Base.Metadata.{load_metadata_objects}
use swh_loader_core.Package.Info.{PackageInfo}
use swh_loader_core.Package.Extids.{get_known_extids}
use swh_loader_core.Package.Methods.{Methods, Disk}
use swh_loader_core.Package.Metadata.{
  build_extrinsic_origin_metadata, build_extrinsic_snapshot_metadata,
}
use swh_loader_core.Package.Snapshot.{load_snapshot}
use swh_loader_core.Package.Progress.{Progress, last_targets, choose_version, initial}
use swh_loader_core.Package.Load.{
  Outcome, failed_task, finalize_visit, list_packages, load_packages,
}

module _ {W : Type 0} (config : Config) (identifiers : Identifiers) (methods : Methods W)
    (disk : Disk W) (storage : Storage W) where
  -- `finalize_visit` where the load has failed before there is a snapshot.
  stop : Option ℕ → String → Exec (Logged W) TaskResult
  stop visit status_visit =
      finalize_visit config identifiers methods disk storage visit
        (record { status_visit = status_visit; status_load = "failed"; snapshot = none })

  build_snapshot : Progress → Exec (Logged W) Snapshot
  build_snapshot st = do
    default_version ← read methods.get_default_version
    extra_branches ← read methods.extra_branches
    load_snapshot storage identifiers.snapshot_id
        (choose_version methods.newer default_version st.tmp_releases) st.tmp_releases
        extra_branches

  -- The flush that ends the `try` block: if it fails, the snapshot that was built is still there.
  flush_snapshot : String → Progress → Option Snapshot → Exec (Logged W) Outcome
  flush_snapshot status_visit st none =
      pure (record { status_visit = "failed"; status_load = "failed"; snapshot = none })
  flush_snapshot status_visit st (some snapshot) =
      try_except
        (do
          call flush storage.flush
          pure (record {
            status_visit = status_visit;
            status_load = st.status_load;
            snapshot = some snapshot;
          }))
        (λ e.
          pure
            (record { status_visit = "failed"; status_load = "failed"; snapshot = some snapshot }))

  -- The `try` statement that builds and stores the snapshot.
  record_snapshot : String → Progress → Exec (Logged W) Outcome
  record_snapshot status_visit st = do
    built ← try_except (do snapshot ← build_snapshot st; pure (some snapshot)) (λ e. pure none)
    flush_snapshot status_visit st built

  abbrev spoilt : Outcome → Outcome
  spoilt outcome = record outcome { status_visit = "partial"; status_load = "failed" }

  describe_snapshot : Outcome → Option Snapshot → Exec (Logged W) Outcome
  describe_snapshot outcome none = pure outcome
  describe_snapshot outcome (some snapshot) =
      try_except
        (do
          metadata_objects ←
              read (build_extrinsic_snapshot_metadata config identifiers methods snapshot.id)
          load_metadata_objects storage metadata_objects
          pure outcome)
        (λ e. pure (spoilt outcome))

  describe_origin : Outcome → Exec (Logged W) Outcome
  describe_origin outcome =
      try_except
        (do
          metadata_objects ← read (build_extrinsic_origin_metadata config identifiers methods)
          load_metadata_objects storage metadata_objects
          pure outcome)
        (λ e. pure (spoilt outcome))

  -- _load_extids
  load_extids : List ExtId → Exec (Logged W) (Unit {0})
  load_extids [] = pure tt
  load_extids (e ∷ extids) =
      try_except (call (extid_add (e ∷ extids)) (storage.extid_add (e ∷ extids))) (λ x. pure tt)

  -- From the snapshot to the end of `load`.
  conclude : Option ℕ → String → Progress → Exec (Logged W) TaskResult
  conclude visit status_visit st = do
    recorded ← record_snapshot status_visit st
    described ← describe_snapshot recorded recorded.snapshot
    outcome ← describe_origin described
    elim (outcome.status_load == "failed") [ true ↦ pure tt | false ↦ load_extids st.new_extids ]
    finalize_visit config identifiers methods disk storage visit outcome

  -- `self.status_visit = "partial"` if there was an exception; without versions the load fails.
  after_loop : Option ℕ → Progress → Exec (Logged W) TaskResult
  after_loop visit st = elim (is_empty st.tmp_releases) [
    | true ↦ stop visit "failed"
    | false ↦
        conclude visit (elim (is_empty st.load_exceptions) [ true ↦ "full" | false ↦ "partial" ]) st
  ]

  load_versions : Option ℕ → Option Snapshot → List String → Exec (Logged W) TaskResult
  load_versions visit last_snapshot versions = do
    listed ← read (
        list_packages config identifiers methods disk storage versions
          (record { packages_info = []; load_exceptions = [] }))
    known_extids ← read (
        get_known_extids storage methods.extid
          (map (λ (p : String × PackageInfo). p.1) listed.packages_info))
    st ←
        load_packages config identifiers methods disk storage known_extids
          (last_targets last_snapshot) listed.packages_info
          (initial versions listed.load_exceptions)
    after_loop visit st

  -- get_sorted_versions, or the status of a visit that ends there.
  list_versions : Exec (Logged W) (List String ⊎ String)
  list_versions =
      try_except (do versions ← read methods.get_sorted_versions; pure (inl versions))
        (λ e. pure (inr (elim (is_not_found e) [ true ↦ "not_found" | false ↦ "failed" ])))

  with_versions : Option ℕ → Option Snapshot → List String ⊎ String → Exec (Logged W) TaskResult
  with_versions visit last_snapshot (inl versions) = load_versions visit last_snapshot versions
  with_versions visit last_snapshot (inr status_visit) = stop visit status_visit

  -- last_snapshot, or none where it cannot be read.
  find_last : Exec (Logged W) (Option (Option Snapshot))
  find_last =
      try_except
        (do
          last ← read (storage.snapshot_get_latest config.origin_url config.visit_type)
          pure (some last))
        (λ e. pure none)

  with_last : Option ℕ → Option (Option Snapshot) → Exec (Logged W) TaskResult
  with_last visit none = stop visit "failed"
  with_last visit (some last_snapshot) = do
    versions ← list_versions
    with_versions visit last_snapshot versions

  pub start_visit : Exec (Logged W) (Option OriginVisit)
  start_visit =
      let origins = config.origin_url ∷ [] in
      let visit : OriginVisit = record {
        origin = config.origin_url;
        date = config.visit_date;
        type = config.visit_type;
        visit = none;
      } in
      try_except
        (do
          call (origin_add origins) (storage.origin_add origins)
          added ← call (origin_visit_add visit) (storage.origin_visit_add visit)
          pure (some added))
        (λ e. pure none)

  with_visit : Option OriginVisit → Exec (Logged W) TaskResult
  with_visit none = pure failed_task
  with_visit (some visit) = do last ← find_last; with_last visit.visit last

  -- load
  pub load : Exec (Logged W) TaskResult
  load = do visit ← start_visit; with_visit visit
