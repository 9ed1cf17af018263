-- ===== src/Package/Load.antt =====
-- package/loader.py: PackageLoader.load and finalize_visit. Log lines and the error texts that only
-- they use are left out.
use mathlib.Core.Option
use swh_loader_core.Prelude.{
  ℕ, String, true, false, Option, none, some, List, [], ◌∷◌, ◌++◌, or_else, has_key, append_to,
  string_eq,
}
use swh_loader_core.Effects.{
  Exception, Exec, ok, pure, throw, assert, try_except, is_exception, assertion_error, key_error,
  ◌>>=◌, ◌>>◌,
}
use swh_loader_core.Model.{
  Sha1Git, truthy, ObjectType, release, revision, Swhid, ext_id_eq, Snapshot, Revision,
  OriginVisitStatus, TaskResult, Identifiers,
}
use swh_loader_core.Storage.{
  Storage, Logged, origin_visit_status_add, release_add, flush, clear_buffers, call, read,
  read_clock,
}
use swh_loader_core.Core.Base.Init.{Config}
use swh_loader_core.Core.Base.Metadata.{load_metadata_objects}
use swh_loader_core.Core.Base.Load.{visit_number}
use swh_loader_core.Package.Info.{PackageInfo}
use swh_loader_core.Package.Extids.{Known, resolve_object_from_extids}
use swh_loader_core.Package.Methods.{Methods, Disk}
use swh_loader_core.Package.Metadata.{build_extrinsic_directory_metadata}
use swh_loader_core.Package.Release.{load_release, rev2rel}
use swh_loader_core.Package.Progress.{
  Progress, Loaded, nothing, failed, loaded, find_swhid, add_new_extid,
}

-- The status of the visit and of the task, and the snapshot, when the loop is over.
pub record Outcome : Type 0 where
  pub status_visit : String
  pub status_load : String
  pub snapshot : Option Snapshot

-- Reading the packages of the versions: what was yielded, and the exceptions.
pub record Listed : Type 0 where
  pub packages_info : List (String × PackageInfo)
  pub load_exceptions : List Exception

-- `snapshot and snapshot.id`, when it is not empty
abbrev pub stored_id : Option Snapshot → Option Sha1Git
stored_id none = none
stored_id (some s) = elim (truthy (some s.id)) [ true ↦ some s.id | false ↦ none ]

abbrev pub failed_task : TaskResult
failed_task = record { status = "failed"; error = none; snapshot_id = none }

module _ {W : Type 0} (config : Config) (identifiers : Identifiers) (methods : Methods W)
    (disk : Disk W) (storage : Storage W) where
  -- finalize_visit
  unfoldable pub finalize_visit : Option ℕ → Outcome → Exec (Logged W) TaskResult
  finalize_visit visit outcome = do
    call flush storage.flush
    let snapshot_id = stored_id outcome.snapshot
    number ← visit_number visit
    date ← read_clock storage
    let s : OriginVisitStatus = record {
      origin = config.origin_url;
      visit = number;
      type = config.visit_type;
      date = date;
      status = outcome.status_visit;
      snapshot = snapshot_id;
    }
    call (origin_visit_status_add s) (storage.origin_visit_status_add s)
    pure (record {
      status = outcome.status_load;
      error = none;
      snapshot_id = Option.map identifiers.hash_to_hex snapshot_id;
    })

  -- `for version in versions`: an exception ends the packages of its version only.
  unfoldable pub add_listed :
      List (String × PackageInfo) × Option Exception → Listed → Exec W Listed
  add_listed (infos, none) listed =
      pure (record listed { packages_info = listed.packages_info ++ infos })
  add_listed (infos, some e) listed = elim (is_exception e) [
    | true ↦ pure (record {
      packages_info = listed.packages_info ++ infos;
      load_exceptions = listed.load_exceptions ++ e ∷ [];
    })
    | false ↦ throw e
  ]

  unfoldable pub list_packages : List String → Listed → Exec W Listed
  list_packages [] listed = pure listed
  list_packages (version ∷ rest) listed = do
    found ← (λ w. let (r, w') = methods.get_package_info version w in (ok r, w'))
    listed' ← add_listed found listed
    list_packages rest listed'

  unfoldable pub after_release : PackageInfo → Option (Sha1Git × Sha1Git) → Exec (Logged W) Loaded
  after_release p_info none = do call flush storage.flush; pure nothing
  after_release p_info (some (release_id, directory_id)) = do
    assert (truthy (some release_id))
    assert (truthy (some directory_id))
    metadata ← read (
        build_extrinsic_directory_metadata config identifiers methods p_info release_id
          directory_id)
    load_metadata_objects storage metadata
    call flush storage.flush
    pure (loaded release_id)

  -- The `try` statement of the loop.
  unfoldable pub try_load : PackageInfo → Exec (Logged W) Loaded
  try_load p_info =
      try_except
        (do
          res ← load_release config identifiers methods disk storage p_info
          after_release p_info res)
        (λ e. do call clear_buffers storage.clear_buffers; pure (failed e))

  -- `tmp_releases[p_info.version].append((branch_name, release_id))`
  unfoldable pub add_release : String → String → Sha1Git → Progress → Exec (Logged W) Progress
  add_release branch_name version release_id st = elim (has_key version st.tmp_releases) [
    | true ↦
        pure
          (record st { tmp_releases = append_to version (branch_name, release_id) st.tmp_releases })
    | false ↦ throw key_error
  ]

  unfoldable pub after_load : String → PackageInfo → Progress → Loaded → Exec (Logged W) Progress
  after_load branch_name p_info st (failed e) = pure (record st {
    load_exceptions = st.load_exceptions ++ e ∷ [];
    failed_branches = st.failed_branches ++ branch_name ∷ [];
  })
  after_load branch_name p_info st nothing = pure (record st { status_load = "eventful" })
  after_load branch_name p_info st (loaded release_id) =
      add_release branch_name p_info.version release_id
        (add_new_extid (methods.extid p_info) release_id (record st { status_load = "eventful" }))

  unfoldable pub load_new : String → PackageInfo → Progress → Exec (Logged W) Progress
  load_new branch_name p_info st = do
    result ← try_load p_info
    after_load branch_name p_info st result

  -- `(rev,) = revision_get(...)`: other than one answer cannot be unpacked.
  unfoldable pub the_revision : List (Option Revision) → Exec (Logged W) (Option Revision)
  the_revision (rev ∷ []) = pure rev
  the_revision _ = throw (Exception.value_error "not enough values to unpack")

  -- A known revision is made a release, if the storage has it.
  unfoldable pub upgrade :
      String → PackageInfo → Progress → Option Revision → Exec (Logged W) Progress
  upgrade branch_name p_info st none = load_new branch_name p_info st
  upgrade branch_name p_info st (some rev) =
      let rel = rev2rel rev p_info.version in
      do
        call (release_add rel) (storage.release_add rel)
        add_release branch_name p_info.version (identifiers.release_id rel)
            (add_new_extid (methods.extid p_info) (identifiers.release_id rel) st)

  unfoldable pub by_type :
      String → PackageInfo → Progress → ObjectType → Sha1Git → Exec (Logged W) Progress
  by_type branch_name p_info st revision id = do
    answer ← read (storage.revision_get (id ∷ []))
    rev ← the_revision answer
    upgrade branch_name p_info st rev
  by_type branch_name p_info st release id = add_release branch_name p_info.version id st
  by_type branch_name p_info st _ id = throw assertion_error

  unfoldable pub load_known :
      String → PackageInfo → Progress → Option Swhid → Exec (Logged W) Progress
  load_known branch_name p_info st none = load_new branch_name p_info st
  load_known branch_name p_info st (some swhid) =
      by_type branch_name p_info st swhid.object_type swhid.object_id

  -- The body of `for branch_name, p_info in packages_info`.
  unfoldable pub load_package :
      Known → List Sha1Git → String → PackageInfo → Progress → Exec (Logged W) Progress
  load_package known_extids last_snapshot_targets branch_name p_info st = do
    resolved ← read (
        resolve_object_from_extids storage methods.select_extid_target methods.extid known_extids
          p_info last_snapshot_targets)
    load_known branch_name p_info st
        (or_else resolved (find_swhid st.extid_to_swhid (methods.extid p_info)))

  unfoldable pub load_packages :
      Known → List Sha1Git → List (String × PackageInfo) → Progress → Exec (Logged W) Progress
  load_packages known_extids targets [] st = pure st
  load_packages known_extids targets ((branch_name, p_info) ∷ rest) st = do
    st' ← load_package known_extids targets branch_name p_info st
    load_packages known_extids targets rest st'
