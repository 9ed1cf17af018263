-- ===== src/Package/Extids.antt =====
-- package/loader.py: _get_known_extids, resolve_object_from_extids and select_extid_target of
-- PackageLoader. `extid` is the method of the package's class.
pub mod Grouping
pub mod Asking
pub mod Resolution
pub mod Samples
use swh_loader_core.Prelude.{
  ℕ, String, ◌≡◌, Bool, true, false, not, ◌&&◌, ◌||◌, Option, none, some, List, [], ◌∷◌, map, Dict,
  lookup, entries, append_to, keep, contains, add, is_empty, string_eq, nat_eq, pair_eq,
}
use swh_loader_core.Effects.{Exec, pure, throw, assertion_error, other, ◌>>=◌, ◌>>◌}
use swh_loader_core.Model.{
  Sha1Git, Swhid, swhid_eq, release, revision, same_object_type, PartialExtId, partial_extid_eq,
  ExtId,
}
use swh_loader_core.Storage.{Storage}
use swh_loader_core.Package.Info.{PackageInfo}

-- extid_type and extid_version, and the extids of that type and version.
abbrev pub Grouped : Type 0
Grouped = Dict (String × ℕ) (List String)

abbrev pub Known : Type 0
Known = Dict PartialExtId (List Swhid)

-- The first loop of _get_known_extids: the extids of the packages, grouped by type and version.
pub group_extids : List (Option PartialExtId) → Grouped → Grouped
group_extids [] new_extids = new_extids
group_extids (none ∷ rest) new_extids = group_extids rest new_extids
group_extids (some e ∷ rest) new_extids =
    group_extids rest (append_to (e.extid_type, e.extid_version) e.extid new_extids)

-- The key under which an ExtID is looked up: its type and extid, and the version that was asked for.
abbrev pub known_key : ℕ → ExtId → PartialExtId
known_key extid_version e = record {
  extid_type = e.key.extid_type;
  extid_version = extid_version;
  extid = e.key.extid;
}

-- The inner loop over the ExtIDs that the storage returns.
pub collect : ℕ → List (Option ExtId) → Known → Known
collect extid_version [] known_extids = known_extids
collect extid_version (none ∷ rest) known_extids = collect extid_version rest known_extids
collect extid_version (some e ∷ rest) known_extids =
    collect extid_version rest (append_to (known_key extid_version e) e.target known_extids)

module _ {W : Type 0} (storage : Storage W) where
  -- `for (extid_type, extid_version), extids in new_extids.items()`
  ask_storage : Grouped → Known → Exec W Known
  unfolding collect
  ask_storage [] known_extids = pure known_extids
  ask_storage (((extid_type, extid_version), extids) ∷ rest) known_extids = do
    found ← storage.extid_get_from_extid extid_type extids extid_version
    ask_storage rest (collect extid_version found known_extids)

  -- _get_known_extids
  pub get_known_extids : (PackageInfo → Option PartialExtId) → List PackageInfo → Exec W Known
  get_known_extids extid packages_info = ask_storage (group_extids (map extid packages_info) []) []

-- `extid_target.object_type in (RELEASE, REVISION)`
abbrev pub is_loadable : Swhid → Bool
is_loadable t = same_object_type t.object_type release || same_object_type t.object_type revision

-- The targets that the last snapshot has and that are releases or revisions: `extid_targets`.
pub whitelisted : List Sha1Git → List Swhid → List Swhid
whitelisted whitelist [] = []
whitelisted whitelist (t ∷ rest) =
    let others = whitelisted whitelist rest in
    elim (contains whitelist t.object_id && is_loadable t) [ true ↦ add t others | false ↦ others ]

-- Whether the loop comes to its `else`: a target that the last snapshot has, but of another type.
abbrev pub has_other : List Sha1Git → List Swhid → Bool
has_other whitelist [] = false
has_other whitelist (t ∷ rest) =
    (contains whitelist t.object_id && not (is_loadable t)) || has_other whitelist rest

abbrev pub is_release : Swhid → Bool
is_release t = same_object_type t.object_type release

abbrev pub is_revision : Swhid → Bool
is_revision t = same_object_type t.object_type revision

-- `targets - missing_releases`
pub without_missing : List Sha1Git → List Swhid → List Swhid
without_missing missing targets = keep (λ t. not (contains missing t.object_id)) targets

-- `assert len(targets) == 1` and `list(targets)[0]`
abbrev pub the_only : {W : Type 0} → List Swhid → Exec W (Option Swhid)
the_only (t ∷ []) = pure (some t)
the_only _ = throw assertion_error

-- select_extid_target of the base class
unfoldable pub select_extid_target : {W : Type 0} → PackageInfo → List Swhid → Exec W (Option Swhid)
select_extid_target p_info [] = pure none
select_extid_target p_info (t ∷ targets) = the_only (t ∷ targets)

module _ {W : Type 0} (storage : Storage W)
    (select : PackageInfo → List Swhid → Exec W (Option Swhid)) where
  -- The code after the search for a release.
  resolve_revision : List Swhid → Option Swhid → Exec W (Option Swhid)
  resolve_revision extid_targets (some target) = pure (some target)
  resolve_revision extid_targets none = elim (is_empty (keep is_revision extid_targets)) [
    | true ↦ pure none
    | false ↦ the_only extid_targets
  ]

  pub resolve_targets : PackageInfo → List Swhid → Exec W (Option Swhid)
  resolve_targets p_info [] = pure none
  resolve_targets p_info (t ∷ rest) =
      let extid_targets = t ∷ rest in
      let releases = keep is_release extid_targets in
      do
        missing ← storage.release_missing (map (λ (x : Swhid). x.object_id) releases)
        selected ← select p_info (without_missing missing releases)
        resolve_revision extid_targets selected

  -- The code below the loop, which ends in an exception where it comes to its `else`: hash_to_hex is
  -- called with an object type.
  abbrev pub resolve_scanned : Bool → PackageInfo → List Swhid → Exec W (Option Swhid)
  resolve_scanned true p_info extid_targets = throw (other "TypeError")
  resolve_scanned false p_info extid_targets = resolve_targets p_info extid_targets

  -- resolve_object_from_extids
  pub resolve_object_from_extids :
      (PackageInfo → Option PartialExtId)
      → Known
      → PackageInfo
      → List Sha1Git
      → Exec W (Option Swhid)
  unfolding whitelisted resolve_targets resolve_revision
  resolve_object_from_extids extid known_extids p_info whitelist = elim (extid p_info) [
    | none ↦ pure none
    | some new_extid ↦
        let targets = entries new_extid known_extids in
        resolve_scanned (has_other whitelist targets) p_info (whitelisted whitelist targets)
  ]
