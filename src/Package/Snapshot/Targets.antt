-- ===== src/Package/Snapshot/Targets.antt =====
-- package/loader.py: the branches of the snapshot that PackageLoader._load_snapshot builds.
use text.Mathlib.TextEquality.{eq_iff}
use swh_loader_core.Prelude.{
  String, ◌≡◌, ◌≢◌, refl, Option, none, some, [], ◌∷◌, ◌++◌, Dict, insert, lookup, lookup-insert,
  string_eq, ◌==◌, if◌then◌else◌, or_else, arith, Bool-cases, inl, inr,
}
use swh_loader_core.Model.{Sha1Git, SnapshotBranch, alias, target_of, release}
use swh_loader_core.Package.Snapshot.{
  Releases, BranchDict, head_alias, add_releases, add_version, add_versions, add_extra,
  build_branches,
}

-- What the last of the pairs with this name gives.
abbrev pub last_target : String → Releases → Option Sha1Git
last_target name [] = none
last_target name ((n, target) ∷ rest) =
    or_else (last_target name rest) (if n == name then some target else none)

-- All pairs of branch and release, in the order of the versions.
abbrev pub all_releases : Dict String Releases → Releases
all_releases [] = []
all_releases ((version, releases) ∷ rest) = releases ++ all_releases rest

abbrev pub release_branch : Option Sha1Git → Option SnapshotBranch
release_branch none = none
release_branch (some target) = some (target_of release target)

pub or_else-none : {A : Type 0} (x y : Option A) → or_else (or_else x none) y ≡ or_else x y
or_else-none none y = refl
or_else-none (some a) y = refl

pub lookup-add_releases :
    (name : String) (releases : Releases) (branches : BranchDict)
    → lookup name (add_releases releases branches)
      ≡ or_else (release_branch (last_target name releases)) (lookup name branches)
unfolding add_releases
lookup-add_releases name [] branches = refl
lookup-add_releases name ((n, target) ∷ rest) branches = ground (
  arith,
  lookup-add_releases name rest (insert n (target_of release target) branches),
  lookup-insert n name (target_of release target) branches,
)

lookup-head_alias :
    (name : String) (releases : Releases) (branches : BranchDict)
    → name ≢ "HEAD"
    → lookup name (head_alias releases branches) ≡ lookup name branches
unfolding head_alias
lookup-head_alias name [] branches h = refl
lookup-head_alias name ((n, t) ∷ []) branches h =
    ground (arith, lookup-insert "HEAD" name (alias n) branches, eq_iff "HEAD" name)
lookup-head_alias name ((n, t) ∷ m ∷ rest) branches h = refl

pub last_target-append :
    (name : String) (xs ys : Releases)
    → last_target name (xs ++ ys) ≡ or_else (last_target name ys) (last_target name xs)
last_target-append name [] ys = ground arith
last_target-append name ((n, t) ∷ xs) ys = ground (arith, last_target-append name xs ys)

lookup-add_version :
    (default_version name version : String) (rs : Releases) (branches : BranchDict)
    → name ≢ "HEAD"
    → lookup name (add_version default_version version rs branches)
      ≡ or_else (release_branch (last_target name rs)) (lookup name branches)
unfolding add_version
lookup-add_version default_version name version rs branches h =
    elim (Bool-cases (version == default_version)) [
      | inl e ↦ rw e (
          rw (lookup-add_releases name rs (head_alias rs branches))
            (rw (lookup-head_alias name rs branches h)))
      | inr e ↦ rw e (lookup-add_releases name rs branches)
    ]

or_else_releases :
    (name : String) (rs more : Releases) (x : Option SnapshotBranch)
    → or_else
        (release_branch (last_target name more))
        (or_else (release_branch (last_target name rs)) x)
      ≡ or_else (release_branch (last_target name (rs ++ more))) x
or_else_releases name rs more x = ground (arith, last_target-append name rs more)

lookup-add_versions :
    (default_version name : String) (releases : Dict String Releases) (branches : BranchDict)
    → name ≢ "HEAD"
    → lookup name (add_versions default_version releases branches)
      ≡ or_else (release_branch (last_target name (all_releases releases))) (lookup name branches)
unfolding add_versions
lookup-add_versions default_version name [] branches h = refl
lookup-add_versions default_version name ((version, rs) ∷ rest) branches h =
    rw
      (lookup-add_versions default_version name rest
        (add_version default_version version rs branches) h)
      (rw (lookup-add_version default_version name version rs branches h)
        (or_else_releases name rs (all_releases rest) (lookup name branches)))

pub lookup-add_extra :
    (name : String) (extra branches : BranchDict)
    → lookup name (add_extra extra branches) ≡ or_else (lookup name branches) (lookup name extra)
unfolding add_extra
lookup-add_extra name [] branches = ground arith
lookup-add_extra name ((n, t) ∷ rest) branches = ground (
  arith,
  eq_iff n name,
  lookup-insert n name t branches,
  lookup-add_extra name rest branches,
  lookup-add_extra name rest (insert n t branches),
)

-- A branch of the snapshot other than HEAD is the last release given for its name; a name with no
-- release is the extra branch of that name, if there is one.
pub lookup-build_branches :
    (default_version name : String) (releases : Dict String Releases) (extra : BranchDict)
    → name ≢ "HEAD"
    → lookup name (build_branches default_version releases extra)
      ≡ or_else (release_branch (last_target name (all_releases releases))) (lookup name extra)
unfolding build_branches
lookup-build_branches default_version name releases extra h =
    rw (lookup-add_extra name extra (add_versions default_version releases [])) (
      rw (lookup-add_versions default_version name releases [] h) (
        or_else-none (release_branch (last_target name (all_releases releases)))
          (lookup name extra)))
