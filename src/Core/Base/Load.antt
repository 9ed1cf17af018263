-- ===== src/Core/Base/Load.antt =====
-- core/loader.py: BaseLoader.load. Metrics and log lines are left out: they change nothing that
-- the loader reads. `while True` takes fuel; Termination has the fuel that suffices.
pub mod Protocol
pub mod Order
pub mod Verdict
pub mod Termination
pub mod OneRound
pub mod Samples
use swh_loader_core.Prelude.{
  ℕ, zero, suc, String, Bool, true, false, ◌&&◌, Option, none, some, List, [], ◌∷◌,
}
use swh_loader_core.Effects.{
  Exception, no_fuel, Exec, pure, throw, gets, try_base, try_except, try_finally, is_exception,
  is_not_found, message, ◌>>=◌, ◌>>◌,
}
use swh_loader_core.Model.{Sha1Git, truthy, OriginVisit, OriginVisitStatus, Snapshot, TaskResult}
use swh_loader_core.Storage.{
  Storage, Logged, pre_cleanup, prepare, fetch_data, process_data, store_data,
  build_partial_snapshot, visit_status, post_load, cleanup, load_status, method, origin_add,
  origin_visit_add, origin_visit_status_add, snapshot_add, flush, call, read, read_clock,
}
use swh_loader_core.Core.Base.Init.{Config}
use swh_loader_core.Core.Base.Metadata.{
  ParentOrigins, Fetcher, load_metadata_objects, build_extrinsic_origin_metadata,
}

-- The methods that `load` calls on `self`; `loaded_snapshot_id` reads the attribute.
pub record Methods (W : Type 0) : Type 0 where
  pub pre_cleanup : Exec W (Unit {0})
  pub prepare : Exec W (Unit {0})
  pub fetch_data : Exec W Bool
  pub process_data : Exec W Bool
  pub store_data : Exec W (Unit {0})
  pub build_partial_snapshot : Exec W (Option Snapshot)
  pub visit_status : Exec W String
  pub post_load : Bool → Exec W (Unit {0})
  pub cleanup : Exec W (Unit {0})
  pub load_status : Exec W TaskResult
  pub loaded_snapshot_id : W → Option Sha1Git
  -- str of an exception that another package raised
  pub exception_text : Exception → String

-- `assert self.visit.visit`: the number of the visit is set and not zero.
abbrev pub visit_number : {S : Type 0} → Option ℕ → Exec S ℕ
visit_number (some (suc n)) = pure (suc n)
visit_number _ = throw Exception.assertion_error

abbrev failed_result : (text : Exception → String) → Exception → TaskResult
failed_result text e = record {
  status = "failed";
  error = some (message text e);
  snapshot_id = none;
}

abbrev uneventful_result : TaskResult
uneventful_result = record { status = "uneventful"; error = none; snapshot_id = none }

-- `status = "partial" if self.loaded_snapshot_id else "failed"`
abbrev pub status_on_failure : Option Sha1Git → String
status_on_failure id = elim (truthy id) [ true ↦ "partial" | false ↦ "failed" ]

-- The status of the visit and the result of the task after an exception.
abbrev pub failure_status : Exception → Option Sha1Git → String
failure_status e id = elim (is_not_found e) [ true ↦ "not_found" | false ↦ status_on_failure id ]

abbrev pub failure_result : (text : Exception → String) → Exception → TaskResult
failure_result text e = elim (is_not_found e) [
  | true ↦ uneventful_result
  | false ↦ failed_result text e
]

module _ {W : Type 0} (config : Config) (methods : Methods W) (storage : Storage W)
    (parent_origins : ParentOrigins W) (fetchers : List (Fetcher W)) where
  -- _store_origin_visit
  store_origin_visit : Exec (Logged W) OriginVisit
  store_origin_visit =
      let origins = config.origin_url ∷ [] in
      let visit : OriginVisit = record {
        origin = config.origin_url;
        date = config.visit_date;
        type = config.visit_type;
        visit = none;
      } in
      do
        call (origin_add origins) (storage.origin_add origins)
        call (origin_visit_add visit) (storage.origin_visit_add visit)

  -- Records a status of the visit: OriginVisitStatus(...) and origin_visit_status_add.
  add_status : ℕ → String → Option Sha1Git → Exec (Logged W) (Unit {0})
  add_status visit status snapshot = do
    date ← read_clock storage
    let s : OriginVisitStatus = record {
      origin = config.origin_url;
      visit = visit;
      type = config.visit_type;
      date = date;
      status = status;
      snapshot = snapshot;
    }
    call (origin_visit_status_add s) (storage.origin_visit_status_add s)

  loaded_id : Exec (Logged W) (Option Sha1Git)
  loaded_id = gets (λ s. methods.loaded_snapshot_id s.world)

  store_partial : ℕ → Option Snapshot → Exec (Logged W) (Unit {0})
  store_partial visit none = pure tt
  store_partial visit (some partial_snapshot) = do
    call (snapshot_add partial_snapshot) (storage.snapshot_add partial_snapshot)
    add_status visit "partial" (some partial_snapshot.id)

  -- The body of `while True`; the result says whether there is more to fetch.
  pub round : ℕ → Exec (Logged W) Bool
  round visit = do
    fetch_more ← call (method fetch_data) methods.fetch_data
    process_more ← call (method process_data) methods.process_data
    let more = process_more && fetch_more
    call (method store_data) methods.store_data
    elim (more && config.create_partial_snapshot) [
      | true ↦ do
        partial_snapshot ← call (method build_partial_snapshot) methods.build_partial_snapshot
        store_partial visit partial_snapshot
        pure more
      | false ↦ pure more
    ]

  ingest : (fuel : ℕ) → ℕ → Exec (Logged W) (Unit {0})
  ingest zero visit = λ s. (no_fuel, s)
  ingest (suc fuel) visit = do
    more ← round visit
    elim more [ true ↦ ingest fuel visit | false ↦ pure tt ]

  -- The `try` block: none means that the code after it goes on.
  pub ingest_visit : (fuel : ℕ) → ℕ → Exec (Logged W) (Option TaskResult)
  ingest_visit fuel visit = do
    call (method prepare) methods.prepare
    ingest fuel visit
    status ← call (method visit_status) methods.visit_status
    id ← loaded_id
    add_status visit status id
    call (method (post_load true)) (methods.post_load true)
    pure none

  -- The `except BaseException as e` block.
  on_failure : ℕ → Exception → Exec (Logged W) (Option TaskResult)
  on_failure visit e = do
    id ← loaded_id
    add_status visit (failure_status e id) id
    call (method (post_load false)) (methods.post_load false)
    elim (is_exception e) [
      | true ↦ pure (some (failure_result methods.exception_text e))
      | false ↦ throw e
    ]

  -- The `finally` block.
  wind_up : Exec (Logged W) (Unit {0})
  wind_up = do call flush storage.flush; call (method cleanup) methods.cleanup

  origin_metadata : Exec (Logged W) (Unit {0})
  origin_metadata =
      try_except
        (do
          metadata ← read (build_extrinsic_origin_metadata parent_origins config fetchers)
          load_metadata_objects storage metadata)
        (λ e. pure tt)

  attempt : (fuel : ℕ) → ℕ → Exec (Logged W) (Option TaskResult)
  attempt fuel visit = try_base (ingest_visit fuel visit) (on_failure visit)

  or_load_status : Option TaskResult → Exec (Logged W) TaskResult
  or_load_status (some result) = pure result
  or_load_status none = call (method load_status) methods.load_status

  -- load
  pub load : (fuel : ℕ) → Exec (Logged W) TaskResult
  load fuel = do
    try_except (call (method pre_cleanup) methods.pre_cleanup) (λ e. pure tt)
    visit ← store_origin_visit
    number ← visit_number visit.visit
    origin_metadata
    result ← try_finally (attempt fuel number) wind_up
    or_load_status result
