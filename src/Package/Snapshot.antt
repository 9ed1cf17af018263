-- ===== src/Package/Snapshot.antt =====
-- package/loader.py: PackageLoader._load_snapshot
pub mod Targets
pub mod Head
pub mod Samples
use swh_loader_core.Prelude.{
  ℕ, zero, suc, String, Bool, true, false, ◌&&◌, Option, none, some, List, [], ◌∷◌, map, Dict,
  insert, has_key, string_eq, ◌==◌, length, nat_beq,
}
use swh_loader_core.Effects.{Exec, pure, ◌>>=◌, ◌>>◌}
use swh_loader_core.Model.{Sha1Git, SnapshotBranch, alias, target_of, release, Branches, Snapshot}
use swh_loader_core.Storage.{Storage, Logged, snapshot_add, call}

-- The branches of a version, with the releases that they point to.
abbrev pub Releases : Type 0
Releases = List (String × Sha1Git)

abbrev pub BranchDict : Type 0
BranchDict = Dict String SnapshotBranch

-- The alias HEAD for the default version, if that has one branch and it is not HEAD itself.
pub head_alias : Releases → BranchDict → BranchDict
head_alias ((branch_name, _) ∷ []) branches = elim (branch_name == "HEAD") [
  | true ↦ branches
  | false ↦ insert "HEAD" (alias branch_name) branches
]
head_alias _ branches = branches

-- `for branch_name, target in branch_name_releases`
pub add_releases : Releases → BranchDict → BranchDict
add_releases [] branches = branches
add_releases ((branch_name, target) ∷ rest) branches =
    add_releases rest (insert branch_name (target_of release target) branches)

pub add_version : String → String → Releases → BranchDict → BranchDict
unfolding head_alias add_releases
add_version default_version version releases branches =
    add_releases releases
      (elim (version == default_version) [ true ↦ head_alias releases branches | false ↦ branches ])

-- `for version, branch_name_releases in releases.items()`
pub add_versions : String → Dict String Releases → BranchDict → BranchDict
unfolding add_version
add_versions default_version [] branches = branches
add_versions default_version ((version, releases) ∷ rest) branches =
    add_versions default_version rest (add_version default_version version releases branches)

-- `for name, branch_target in extra_branches.items()`: a name that is taken is ignored.
pub add_extra : BranchDict → BranchDict → BranchDict
add_extra [] branches = branches
add_extra ((name, branch_target) ∷ rest) branches =
    add_extra rest (elim (has_key name branches) [
      | true ↦ branches
      | false ↦ insert name branch_target branches
    ])

pub build_branches : String → Dict String Releases → BranchDict → BranchDict
unfolding add_versions add_extra
build_branches default_version releases extra_branches =
    add_extra extra_branches (add_versions default_version releases [])

-- Snapshot.from_dict; the identifier is computed by swh.model.
abbrev pub snapshot_of : (Branches → Sha1Git) → BranchDict → Snapshot
snapshot_of snapshot_id branches =
    let entries : Branches = map (λ (b : String × SnapshotBranch). (b.0, some b.1)) branches in
    record { id = snapshot_id entries; branches = entries }

-- _load_snapshot
unfoldable pub load_snapshot :
    {W : Type 0}
    → Storage W
    → (Branches → Sha1Git)
    → String
    → Dict String Releases
    → BranchDict
    → Exec (Logged W) Snapshot
load_snapshot storage snapshot_id default_version releases extra_branches =
    let snapshot =
      snapshot_of snapshot_id (build_branches default_version releases extra_branches) in
    do call (snapshot_add snapshot) (storage.snapshot_add snapshot); pure snapshot
