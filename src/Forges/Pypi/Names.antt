-- ===== src/Forges/Pypi/Names.antt =====
-- package/pypi/loader.py: the branch names of the archives of a version.
use Prim.Native.String
use text.Mathlib.TextLemmas.{append_cancel_left}
use swh_loader_core.Prelude.{
  String, ◌≡◌, refl, sym, ap, ◌∙◌, true, Option, none, some, List, [], ◌∷◌, map, All, contains,
  Different, string_eq, arith, ◌==◌, Bool-cases, inl, inr,
}
use swh_loader_core.Model.{truthy}
use swh_loader_core.Core.Utils.{release_name}
use swh_loader_core.Forges.Pypi.{PypiInfo, with_names, branch_names}

-- The package has the file name, which is not empty.
pub record HasFile (p_info : PypiInfo) : Type 0 where
  pub filename : String
  pub is_filename : p_info.base.filename ≡ some filename
  pub is_full : truthy (some filename) ≡ true

abbrev pub filename_or_empty : Option String → String
filename_or_empty none = ""
filename_or_empty (some f) = f

-- The file names of the packages.
abbrev pub filenames : List PypiInfo → List String
filenames infos = map (λ (p : PypiInfo). filename_or_empty p.base.filename) infos

-- The names of the branches.
abbrev pub names : List (String × PypiInfo) → List String
names branches = map (λ (b : String × PypiInfo). b.0) branches

-- releases/{version}/{filename}
path_name : String → String → String
path_name version f = String.◌++◌ "releases/" (String.◌++◌ version (String.◌++◌ "/" f))

path_name_inj : (version f g : String) → path_name version f ≡ path_name version g → f ≡ g
unfolding path_name
path_name_inj version f g e =
    append_cancel_left "/" f g
      (append_cancel_left version _ _ (append_cancel_left "releases/" _ _ e))

release_name-path :
    (version : String) (p_info : PypiInfo)
    → HasFile p_info
    → release_name version p_info.base.filename
      ≡ path_name version (filename_or_empty p_info.base.filename)
unfolding path_name
release_name-path version p_info h = rw h.is_filename (ground (arith, h.is_full))

same_test : (version f g : String) → (path_name version f == path_name version g) ≡ (f == g)
same_test version f g = elim (Bool-cases (f == g)) [
  | inl e ↦ (string_eq.beq_iff _ _).1 (ap (path_name version) ((string_eq.beq_iff f g).0 e)) ∙ sym e
  | inr e ↦ elim (Bool-cases (path_name version f == path_name version g)) [
    | inr d ↦ d ∙ sym e
    | inl d ↦ absurd (
        cc ((string_eq.beq_iff f g).1 (path_name_inj version f g ((string_eq.beq_iff _ _).0 d)), e))
  ]
]

contains-names :
    (version f : String) (infos : List PypiInfo)
    → All HasFile infos
    → contains (names (with_names version infos)) (path_name version f)
      ≡ contains (filenames infos) f
unfolding with_names
contains-names version f [] h = refl
contains-names version f (p ∷ infos) (h, hs) =
    rw
      (
        release_name-path version p h,
        same_test version f (filename_or_empty p.base.filename),
        contains-names version f infos hs,
      )
      refl

with_names-Different :
    (version : String) (infos : List PypiInfo)
    → All HasFile infos
    → Different (filenames infos)
    → Different (names (with_names version infos))
unfolding with_names
with_names-Different version [] h d = tt
with_names-Different version (p ∷ infos) (h, hs) (d, ds) = (
  rw
      (
        release_name-path version p h,
        contains-names version (filename_or_empty p.base.filename) infos hs,
      )
      d,
  with_names-Different version infos hs ds,
)

-- If the archives of a version have different file names, and none is empty, then get_package_info gives them
-- pairwise different branch names, one for each archive, in order.
pub branch_names-Different :
    (version : String) (infos : List PypiInfo)
    → All HasFile infos
    → Different (filenames infos)
    → Different (names (branch_names version infos))
      × (map (λ (b : String × PypiInfo). b.1) (branch_names version infos) ≡ infos)
unfolding branch_names with_names
branch_names-Different version [] h d = (tt, refl)
branch_names-Different version (p ∷ []) h d = ((refl, tt), refl)
branch_names-Different version (p ∷ q ∷ infos) h d =
    (with_names-Different version (p ∷ q ∷ infos) h d, kept version (p ∷ q ∷ infos))
  where
    kept :
        (version : String) (infos : List PypiInfo)
        → map (λ (b : String × PypiInfo). b.1) (with_names version infos) ≡ infos
    kept version [] = refl
    kept version (p ∷ infos) = ap (λ (l : List PypiInfo). p ∷ l) (kept version infos)
