-- ===== src/Package/Snapshot/Samples.antt =====
-- package/loader.py: the snapshot of two versions, one of them the default.
use swh_loader_core.Prelude.{
  ◌≡◌, refl, String, some, [], ◌∷◌, Dict, lookup, or_else, entries, string_eq, ◌≢◌,
}
use swh_loader_core.Model.{target_of, release, Sha1Git}
use swh_loader_core.Package.Snapshot.{
  Releases, BranchDict, build_branches, add_versions, add_version, add_releases, head_alias,
  add_extra,
}
use swh_loader_core.Package.Snapshot.Targets.{
  last_target, all_releases, release_branch, lookup-build_branches,
}
use swh_loader_core.Package.Snapshot.Head.{sole_alias, head_resolves, head_default}

abbrev two_versions : Dict String Releases
two_versions = ("1.0", ("releases/1.0", "r1") ∷ []) ∷ ("2.0", ("releases/2.0", "r2") ∷ []) ∷ []

abbrev nightly : BranchDict
nightly = ("nightly", target_of release "r9") ∷ []

head_resolves_example :
    (id : Sha1Git) × (lookup "releases/2.0" (build_branches "2.0" two_versions nightly)
      ≡ some (target_of release id))
unfolding build_branches add_versions add_version add_releases head_alias add_extra
head_resolves_example = head_resolves "2.0" "releases/2.0" two_versions nightly refl refl

head_default_example :
    lookup "HEAD" (build_branches "2.0" two_versions nightly)
    ≡ or_else (sole_alias (entries "2.0" two_versions)) (lookup "HEAD" nightly)
head_default_example = head_default "2.0" two_versions nightly (refl, (refl, tt)) refl

nightly_is_not_head : ◌≢◌ {A = String} "nightly" "HEAD"
nightly_is_not_head e = cc

lookup-build_branches_example :
    lookup "nightly" (build_branches "2.0" two_versions nightly)
    ≡ or_else
        (release_branch (last_target "nightly" (all_releases two_versions)))
        (lookup "nightly" nightly)
lookup-build_branches_example =
    lookup-build_branches "2.0" "nightly" two_versions nightly nightly_is_not_head
