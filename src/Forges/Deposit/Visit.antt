-- ===== src/Forges/Deposit/Visit.antt =====
-- package/deposit/loader.py: DepositLoader.load and finalize_visit, which report to the deposit server.
use swh_loader_core.Prelude.{
  ℕ, String, true, false, Option, none, some, List, [], is_empty, lookup, string_eq, ◌==◌,
}
use swh_loader_core.Effects.{
  Exec, pure, throw, gets, other, is_value_error, try_except, try_base, ◌>>=◌, ◌>>◌,
}
use swh_loader_core.Model.{
  Sha1Git, truthy, SnapshotBranch, alias, target_of, Snapshot, Release, TaskResult, Identifiers,
}
use swh_loader_core.Storage.{Logged, Storage, read}
use swh_loader_core.Core.Base.Init.{Config}
use swh_loader_core.Package.Methods.{Methods, Disk}
use swh_loader_core.Package.Load.{Outcome, failed_task, finalize_visit}
use swh_loader_core.Forges.Json.{Json, Cache, present}
use swh_loader_core.Forges.Deposit.Branches.{Names, get_default_branch_name}
use swh_loader_core.Forges.Deposit.Client.{
  Http, ApiClient, StatusUpdate, status_update, metadata_get,
}
use swh_loader_core.Forges.Deposit.Packages.{DepositConfig}

-- `branch.target`, when the branch and its target are not empty
abbrev pub branch_target : Option SnapshotBranch → Option String
branch_target none = none
branch_target (some (alias target)) = elim (truthy (some target)) [
  | true ↦ some target
  | false ↦ none
]
branch_target (some (target_of type target)) = elim (truthy (some target)) [
  | true ↦ some target
  | false ↦ none
]

abbrev pub failed_update : List String → StatusUpdate
failed_update errors = record {
  status = "failed";
  errors = errors;
  release_id = none;
  directory_id = none;
  snapshot_id = none;
  origin_url = none;
}

module _ {W : Type 0} (identifiers : Identifiers) (config : Config)
    (default_version : Exec W String) (names : W → Names)
    (release_get : Sha1Git → Exec W (Option Release)) where
  -- The update with the identifiers; hash_to_hex(None) and a result without snapshot raise.
  unfoldable pub done_update :
      TaskResult → (rel_id : Sha1Git) → (target : Option Sha1Git) → Exec W (Option StatusUpdate)
  done_update r rel_id none = throw (other "AttributeError")
  done_update r rel_id (some target) = do
    snapshot_id ← present r.snapshot_id
    pure (
        some (record {
          status = "done";
          errors = [];
          release_id = some (identifiers.hash_to_hex rel_id);
          directory_id = some (identifiers.hash_to_hex target);
          snapshot_id = some snapshot_id;
          origin_url = some config.origin_url;
        }))

  -- From the release that the storage has, or has not.
  unfoldable pub stored_update :
      TaskResult → (rel_id : Sha1Git) → Option Release → Exec W (Option StatusUpdate)
  unfolding done_update
  stored_update r rel_id none = pure none
  stored_update r rel_id (some release) = done_update r rel_id release.target

  -- From the target of the branch, if it has one.
  unfoldable pub release_update : TaskResult → Option Sha1Git → Exec W (Option StatusUpdate)
  unfolding stored_update
  release_update r none = pure none
  release_update r (some rel_id) = do release ← release_get rel_id; stored_update r rel_id release

  -- From the branch of the default version.
  unfoldable pub branch_update : TaskResult → Snapshot → Exec W (Option StatusUpdate)
  unfolding release_update
  branch_update r snapshot = do
    version ← default_version
    known ← gets names
    default_branch_name ← present (get_default_branch_name version known)
    branch_by_name ← present (lookup default_branch_name snapshot.branches)
    release_update r (branch_target branch_by_name)

  unfoldable pub snapshot_update : TaskResult → Option Snapshot → Exec W (Option StatusUpdate)
  unfolding branch_update
  snapshot_update r none = pure none
  snapshot_update r (some snapshot) = elim (is_empty snapshot.branches) [
    | true ↦ pure none
    | false ↦ branch_update r snapshot
  ]

  -- The `try` block of finalize_visit up to the call of status_update: what it is called with, if it is.
  unfoldable pub choose_update :
      (status_visit : String)
      → List String
      → TaskResult
      → Option Snapshot
      → Exec W (Option StatusUpdate)
  unfolding snapshot_update
  choose_update status_visit errors r snapshot = elim (status_visit == "full") [
    | false ↦ pure (some (failed_update errors))
    | true ↦ snapshot_update r snapshot
  ]

module _ {W : Type 0} (identifiers : Identifiers) (config : Config) (methods : Methods W)
    (disk : Disk W) (storage : Storage W) (http : Http W) (client : ApiClient)
    (deposit : DepositConfig) (default_version : Exec W String) (names : W → Names)
    (release_get : Sha1Git → Exec W (Option Release)) where
  abbrev send : Option StatusUpdate → Exec W (Unit {0})
  send none = pure tt
  send (some update) = status_update http client deposit.deposit_id update

  -- finalize_visit
  unfoldable pub finalize_deposit :
      (visit : Option ℕ) → Outcome → (errors : List String) → Exec (Logged W) TaskResult
  unfolding choose_update
  finalize_deposit visit outcome errors = do
    r ← finalize_visit config identifiers methods disk storage visit outcome
    try_except
        (do
          update ← read (
              choose_update identifiers config default_version names release_get
                outcome.status_visit errors r outcome.snapshot)
          read (send update)
          pure r)
        (λ e. pure failed_task)

-- load: a deposit that the server does not know is not loaded. `super_load` is PackageLoader.load.
unfoldable pub load_deposit :
    {W : Type 0}
    → Http W
    → ApiClient
    → Cache W String Json
    → DepositConfig
    → (super_load : Exec (Logged W) TaskResult) → Exec (Logged W) TaskResult
load_deposit http client cache config super_load = do
  known ←
      try_base (do answer ← read (metadata_get http client cache config.deposit_id); pure true)
        (λ e. elim (is_value_error e) [ true ↦ pure false | false ↦ throw e ])
  elim known [ true ↦ super_load | false ↦ pure failed_task ]
