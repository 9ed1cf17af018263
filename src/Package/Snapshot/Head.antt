-- ===== src/Package/Snapshot/Head.antt =====
-- package/loader.py: the branch HEAD of the snapshot that PackageLoader._load_snapshot builds.
use text.Mathlib.TextEquality.{eq_iff}
use swh_loader_core.Prelude.{
  String, ◌≡◌, refl, ap, ◌∙◌, true, false, Option, none, some, [], ◌∷◌, ◌++◌, Dict, insert, lookup,
  lookup-insert, string_eq, ◌==◌, or_else, arith, Bool-cases, inl, inr, entries,
}
use swh_loader_core.Model.{Sha1Git, SnapshotBranch, alias, target_of, release}
use swh_loader_core.Package.Snapshot.{
  Releases, BranchDict, head_alias, add_releases, add_version, add_versions, build_branches,
}
use swh_loader_core.Package.Snapshot.Targets.{
  last_target, all_releases, release_branch, lookup-add_releases, lookup-add_extra,
  last_target-append, or_else-none,
}

-- An alias HEAD points to a branch that is a release.
abbrev IsResolved : BranchDict → Type 0
IsResolved branches =
    (t : String)
    → lookup "HEAD" branches ≡ some (alias t)
    → (id : Sha1Git) × (lookup t branches ≡ some (target_of release id))

resolve_from :
    (t : String) (rs : Releases) (head found : Option SnapshotBranch)
    (new_head new_found : Option Sha1Git)
    → (head ≡ some (alias t) → (id : Sha1Git) × (found ≡ some (target_of release id)))
    → or_else (release_branch new_head) head ≡ some (alias t)
    → (id : Sha1Git) × (or_else (release_branch new_found) found ≡ some (target_of release id))
resolve_from t rs head found (some a) b h e = absurd (cc)
resolve_from t rs head found none (some id) h e = (id, refl)
resolve_from t rs head found none none h e = h e

add_releases-IsResolved :
    (rs : Releases) (branches : BranchDict)
    → IsResolved branches
    → IsResolved (add_releases rs branches)
add_releases-IsResolved rs branches h t e =
    let (id, q) =
      resolve_from t rs (lookup "HEAD" branches) (lookup t branches) (last_target "HEAD" rs)
        (last_target t rs) (h t) (rw (lookup-add_releases "HEAD" rs branches) at e) in
    (id, rw (lookup-add_releases t rs branches) q)

head_inserted :
    (n t : String) (id : Sha1Git) (branches : BranchDict)
    → (n == "HEAD") ≡ false
    → lookup "HEAD" (add_releases ((n, id) ∷ []) (insert "HEAD" (alias n) branches))
      ≡ some (alias t)
    → lookup t (add_releases ((n, id) ∷ []) (insert "HEAD" (alias n) branches))
      ≡ some (target_of release id)
unfolding add_releases
head_inserted n t id branches h e = ground (
  arith,
  eq_iff n "HEAD",
  eq_iff "HEAD" "HEAD",
  eq_iff n t,
  lookup-insert n "HEAD" (target_of release id) (insert "HEAD" (alias n) branches),
  lookup-insert n t (target_of release id) (insert "HEAD" (alias n) branches),
  lookup-insert "HEAD" "HEAD" (alias n) branches,
)

add_default-IsResolved :
    (rs : Releases) (branches : BranchDict)
    → IsResolved branches
    → IsResolved (add_releases rs (head_alias rs branches))
unfolding head_alias
add_default-IsResolved [] branches h = add_releases-IsResolved [] branches h
add_default-IsResolved ((n, id) ∷ []) branches h = elim (Bool-cases (n == "HEAD")) [
  | inl e ↦ rw (e, head_alias) (add_releases-IsResolved ((n, id) ∷ []) branches h)
  | inr e ↦ rw (e, head_alias) (λ t q. (id, head_inserted n t id branches e q))
]
add_default-IsResolved (r ∷ m ∷ rest) branches h = add_releases-IsResolved (r ∷ m ∷ rest) branches h

add_versions-IsResolved :
    (default_version : String) (releases : Dict String Releases) (branches : BranchDict)
    → IsResolved branches
    → IsResolved (add_versions default_version releases branches)
unfolding add_versions add_version
add_versions-IsResolved d [] branches h = h
add_versions-IsResolved d ((version, rs) ∷ rest) branches h = elim (Bool-cases (version == d)) [
  | inl e ↦ rw e (add_versions-IsResolved d rest _ (add_default-IsResolved rs branches h))
  | inr e ↦ rw e (add_versions-IsResolved d rest _ (add_releases-IsResolved rs branches h))
]

resolve_extra :
    (t : String) (head found head_extra found_extra : Option SnapshotBranch)
    → (head ≡ some (alias t) → (id : Sha1Git) × (found ≡ some (target_of release id)))
    → head_extra ≡ none
    → or_else head head_extra ≡ some (alias t)
    → (id : Sha1Git) × (or_else found found_extra ≡ some (target_of release id))
resolve_extra t (some b) found he fe h n e = let (id, q) = h e in (id, rw q refl)
resolve_extra t none found he fe h n e = absurd (cc)

-- If no extra branch is called HEAD, an alias HEAD in the snapshot points to a branch of the
-- snapshot that is a release: it never dangles.
pub head_resolves :
    (default_version t : String) (releases : Dict String Releases) (extra : BranchDict)
    → lookup "HEAD" extra ≡ none
    → lookup "HEAD" (build_branches default_version releases extra) ≡ some (alias t)
    → (id : Sha1Git) × (lookup t (build_branches default_version releases extra)
        ≡ some (target_of release id))
unfolding build_branches
head_resolves d t releases extra no_head e =
    let branches = add_versions d releases [] in
    let (id, q) =
      resolve_extra t (lookup "HEAD" branches) (lookup t branches) (lookup "HEAD" extra)
        (lookup t extra) (add_versions-IsResolved d releases [] (λ t' e'. absurd (cc)) t) no_head
        (rw (lookup-add_extra "HEAD" extra branches) at e) in
    (id, rw (lookup-add_extra t extra branches) q)

-- The alias that a version with these releases gets as the default version.
abbrev pub sole_alias : Releases → Option SnapshotBranch
sole_alias ((n, _) ∷ []) = some (alias n)
sole_alias _ = none

-- A dict has each key once.
abbrev pub HasUniqueKeys : {V : Type 0} → Dict String V → Type 0
HasUniqueKeys [] = Unit
HasUniqueKeys ((k, v) ∷ d) = (lookup k d ≡ none) × HasUniqueKeys d

last_target-append_none :
    (name : String) (xs ys : Releases)
    → last_target name (xs ++ ys) ≡ none
    → (last_target name xs ≡ none) × (last_target name ys ≡ none)
last_target-append_none name xs ys h = ground (arith, last_target-append name xs ys)

lookup-head_default :
    (rs : Releases) (branches : BranchDict)
    → last_target "HEAD" rs ≡ none
    → lookup "HEAD" (add_releases rs (head_alias rs branches))
      ≡ or_else (sole_alias rs) (lookup "HEAD" branches)
unfolding head_alias
lookup-head_default [] branches h = rw (lookup-add_releases "HEAD" [] branches)
lookup-head_default ((n, t) ∷ []) branches h = ground (
  arith,
  lookup-add_releases "HEAD" ((n, t) ∷ []) (insert "HEAD" (alias n) branches),
  lookup-insert "HEAD" "HEAD" (alias n) branches,
  eq_iff "HEAD" "HEAD",
)
lookup-head_default ((n, t) ∷ m ∷ rest) branches h =
    rw (lookup-add_releases "HEAD" ((n, t) ∷ m ∷ rest) branches) (rw h)

lookup-head_other :
    (rs : Releases) (branches : BranchDict)
    → last_target "HEAD" rs ≡ none
    → lookup "HEAD" (add_releases rs branches) ≡ lookup "HEAD" branches
lookup-head_other rs branches h = rw (lookup-add_releases "HEAD" rs branches) (rw h)

-- With no default version left to come, HEAD stays.
lookup-head_absent :
    (d : String) (releases : Dict String Releases) (branches : BranchDict)
    → lookup d releases ≡ none
    → last_target "HEAD" (all_releases releases) ≡ none
    → lookup "HEAD" (add_versions d releases branches) ≡ lookup "HEAD" branches
unfolding add_versions add_version
lookup-head_absent d [] branches absent h = refl
lookup-head_absent d ((version, rs) ∷ rest) branches absent h = elim (Bool-cases (version == d)) [
  | inl e ↦ absurd (cc (rw e at absent))
  | inr e ↦
      let parts = last_target-append_none "HEAD" rs (all_releases rest) h in
      rw e (
        lookup-head_absent d rest (add_releases rs branches) (rw e at absent) parts.1
        ∙ lookup-head_other rs branches parts.0)
]

entries-here :
    (version d : String) (rs : Releases) (rest : Dict String Releases)
    → (version == d) ≡ true
    → entries d ((version, rs) ∷ rest) ≡ rs
entries-here version d rs rest e = ground arith

entries-there :
    (version d : String) (rs : Releases) (rest : Dict String Releases)
    → (version == d) ≡ false
    → entries d ((version, rs) ∷ rest) ≡ entries d rest
entries-there version d rs rest e = ground arith

lookup-head :
    (d : String) (releases : Dict String Releases) (branches : BranchDict)
    → HasUniqueKeys releases
    → last_target "HEAD" (all_releases releases) ≡ none
    → lookup "HEAD" (add_versions d releases branches)
      ≡ or_else (sole_alias (entries d releases)) (lookup "HEAD" branches)
unfolding add_versions add_version
lookup-head d [] branches u h = refl
lookup-head d ((version, rs) ∷ rest) branches u h =
    let parts = last_target-append_none "HEAD" rs (all_releases rest) h in
    elim (Bool-cases (version == d)) [
      | inl e ↦ rw (entries-here version d rs rest e) (
          rw e (
            lookup-head_absent d rest (add_releases rs (head_alias rs branches))
              (ground (arith, eq_iff version d)) parts.1
            ∙ lookup-head_default rs branches parts.0))
      | inr e ↦ rw (entries-there version d rs rest e) (
          rw e (
            lookup-head d rest (add_releases rs branches) u.1 parts.1
            ∙ ap (or_else (sole_alias (entries d rest))) (lookup-head_other rs branches parts.0)))
    ]

-- If each version stands once among the releases and no release has a branch called HEAD, HEAD of the snapshot is an alias for the branch of
-- the default version where that version has exactly one release; otherwise it is the extra branch
-- HEAD, if there is one.
pub head_default :
    (default_version : String) (releases : Dict String Releases) (extra : BranchDict)
    → HasUniqueKeys releases
    → last_target "HEAD" (all_releases releases) ≡ none
    → lookup "HEAD" (build_branches default_version releases extra)
      ≡ or_else (sole_alias (entries default_version releases)) (lookup "HEAD" extra)
unfolding build_branches
head_default d releases extra u h =
    rw (lookup-add_extra "HEAD" extra (add_versions d releases [])) (
      rw (lookup-head d releases [] u h)
        (or_else-none (sole_alias (entries d releases)) (lookup "HEAD" extra)))
