-- ===== src/Package/Progress.antt =====
-- package/loader.py: the local variables of PackageLoader.load and the expressions over them. The
-- texts that only log lines use are left out.
use swh_loader_core.Prelude.{
  String, Bool, true, false, Option, none, some, List, [], ◌∷◌, is_empty, Dict, lookup, insert,
  entries, add, string_eq,
}
use swh_loader_core.Effects.{Exception}
use swh_loader_core.Model.{
  Sha1Git, release, Swhid, PartialExtId, partial_extid_eq, ExtId, ext_id_eq, SnapshotBranch, alias,
  target_of, Branches, Snapshot,
}
use swh_loader_core.Package.Snapshot.{Releases}

-- The local variables of `load` that its main loop changes, with `self.status_load`.
pub record Progress : Type 0 where
  pub status_load : String
  pub failed_branches : List String
  pub load_exceptions : List Exception
  pub new_extids : List ExtId
  pub extid_to_swhid : Dict PartialExtId Swhid
  pub tmp_releases : Dict String Releases

-- The targets of the branches of a snapshot: `last_snapshot_targets`.
abbrev pub branch_target : SnapshotBranch → Sha1Git
branch_target (alias target) = target
branch_target (target_of _ target) = target

unfoldable pub snapshot_targets : Branches → List Sha1Git
snapshot_targets [] = []
snapshot_targets ((name, none) ∷ rest) = snapshot_targets rest
snapshot_targets ((name, some branch) ∷ rest) = add (branch_target branch) (snapshot_targets rest)

unfoldable pub last_targets : Option Snapshot → List Sha1Git
unfolding snapshot_targets
last_targets none = []
last_targets (some last) = snapshot_targets last.branches

-- `extid_to_swhid.get(p_info.extid())`: no package without an extid is in the dict.
abbrev pub find_swhid : Dict PartialExtId Swhid → Option PartialExtId → Option Swhid
find_swhid known none = none
find_swhid known (some k) = lookup k known

-- `max(versions, key=LooseVersion2, default=default)`: the first of the greatest.
unfoldable pub max_version : (String → String → Bool) → String → List String → String
max_version newer best [] = best
max_version newer best (v ∷ rest) =
    max_version newer (elim (newer v best) [ true ↦ v | false ↦ best ]) rest

unfoldable pub max_or : (String → String → Bool) → String → List String → String
unfolding max_version
max_or newer default [] = default
max_or newer default (v ∷ rest) = max_version newer v rest

-- The versions with a release: `fetched_versions`.
unfoldable pub fetched_versions : Dict String Releases → List String
fetched_versions [] = []
fetched_versions ((version, releases) ∷ rest) =
    let others = fetched_versions rest in
    elim (is_empty releases) [ true ↦ others | false ↦ version ∷ others ]

-- The version that HEAD stands for.
unfoldable pub choose_version : (String → String → Bool) → String → Dict String Releases → String
unfolding max_or fetched_versions
choose_version newer default_version tmp_releases =
    elim (is_empty (entries default_version tmp_releases)) [
      | true ↦ max_or newer default_version (fetched_versions tmp_releases)
      | false ↦ default_version
    ]

-- The outcome of `_load_release` in the loop.
pub data Loaded : Type 0 where
  nothing : Loaded
  failed : Exception → Loaded
  loaded : Sha1Git → Loaded

-- `{version: [] for version in versions}`
unfoldable pub empty_releases : List String → Dict String Releases → Dict String Releases
empty_releases [] d = d
empty_releases (version ∷ rest) d = empty_releases rest (insert version [] d)

unfoldable pub initial : List String → List Exception → Progress
unfolding empty_releases
initial versions load_exceptions = record {
  status_load = "uneventful";
  failed_branches = [];
  load_exceptions = load_exceptions;
  new_extids = [];
  extid_to_swhid = [];
  tmp_releases = empty_releases versions [];
}

-- `new_extids` and `extid_to_swhid` with the package's ExtID, if it has one.
unfoldable pub add_new_extid : Option PartialExtId → Sha1Git → Progress → Progress
add_new_extid none release_id st = st
add_new_extid (some partial_extid) release_id st =
    let release_swhid : Swhid = record { object_type = release; object_id = release_id } in
    record st {
      extid_to_swhid = insert partial_extid release_swhid st.extid_to_swhid;
      new_extids = add (record { key = partial_extid; target = release_swhid }) st.new_extids;
    }
