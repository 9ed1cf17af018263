-- ===== src/Forges/Debian/Files.antt =====
-- package/debian/loader.py: the .dsc file of a package, as extid, dsc_information and download_package
-- see it.
use text.Mathlib.TextLemmas.{cons≢nil}
use swh_loader_core.Prelude.{
  String, ◌≡◌, refl, true, false, Option, none, some, [], ◌∷◌, Dict, arith, string_eq, Bool-cases,
  inl, inr, ◌==◌,
}
use swh_loader_core.Effects.{Result, ok, raise, effects}
use swh_loader_core.Model.{truthy}
use swh_loader_core.Forges.Text.{ends_with}
use swh_loader_core.Forges.Debian.{
  DebianFile, DebianInfo, dsc_count_error, is_dsc, dsc_files, find_dsc, dsc_information,
}

-- What dsc_information is meant to do with the .dsc files.
abbrev pub dsc_outcome : Dict String DebianFile → Result (Option String × Option String)
dsc_outcome [] = ok (none, none)
dsc_outcome ((name, file) ∷ []) = ok (some file.uri, some name)
dsc_outcome (_ ∷ _ ∷ _) = raise dsc_count_error

-- A further .dsc file is an error, once one has been found.
abbrev second_outcome :
    (dsc_url dsc_name : String) → Dict String DebianFile → Result (Option String × Option String)
second_outcome dsc_url dsc_name [] = ok (some dsc_url, some dsc_name)
second_outcome dsc_url dsc_name (_ ∷ _) = raise dsc_count_error

-- A name that ends with ".dsc" is not empty.
is_dsc-truthy : (name : String) → is_dsc name ≡ true → truthy (some name) ≡ true
unfolding ends_with
is_dsc-truthy String.[] e = absurd (cc e)
is_dsc-truthy (String.◌∷◌ c s) e = elim (Bool-cases (String.◌∷◌ c s == "")) [
  | inl f ↦ absurd (cons≢nil ((string_eq.beq_iff (String.◌∷◌ c s) "").0 f))
  | inr f ↦ rw (f, truthy) refl
]

dsc_files-nil : dsc_files [] ≡ []
unfolding dsc_files
dsc_files-nil = refl

dsc_files-taken :
    (name : String) (file : DebianFile) (files : Dict String DebianFile)
    → is_dsc name ≡ true
    → dsc_files ((name, file) ∷ files) ≡ (name, file) ∷ dsc_files files
unfolding dsc_files
dsc_files-taken name file files e = ground (arith, e)

dsc_files-passed :
    (name : String) (file : DebianFile) (files : Dict String DebianFile)
    → is_dsc name ≡ false
    → dsc_files ((name, file) ∷ files) ≡ dsc_files files
unfolding dsc_files
dsc_files-passed name file files e = ground (arith, e)

find_second :
    {W : Type 0} (files : Dict String DebianFile) (dsc_url dsc_name : String) (w : W)
    → is_dsc dsc_name ≡ true
    → find_dsc files (some dsc_url) (some dsc_name) w
      ≡ (second_outcome dsc_url dsc_name (dsc_files files), w)
unfolding find_dsc effects
find_second [] dsc_url dsc_name w h = rw dsc_files-nil refl
find_second ((n, f) ∷ files) dsc_url dsc_name w h = elim (Bool-cases (is_dsc n)) [
  | inl e ↦ rw (dsc_files-taken n f files e, e, is_dsc-truthy dsc_name h) refl
  | inr e ↦ rw (dsc_files-passed n f files e, e) (find_second files dsc_url dsc_name w h)
]

second-dsc_outcome :
    (n : String) (f : DebianFile) (files : Dict String DebianFile)
    → second_outcome f.uri n files ≡ dsc_outcome ((n, f) ∷ files)
second-dsc_outcome n f [] = refl
second-dsc_outcome n f (_ ∷ _) = refl

find_first :
    {W : Type 0} (files : Dict String DebianFile) (w : W)
    → find_dsc files none none w ≡ (dsc_outcome (dsc_files files), w)
unfolding find_dsc effects
find_first [] w = rw dsc_files-nil refl
find_first ((n, f) ∷ files) w = elim (Bool-cases (is_dsc n)) [
  | inl e ↦
      rw
        (
          dsc_files-taken n f files e,
          e,
          find_second files f.uri n w e,
          second-dsc_outcome n f (dsc_files files),
        )
        refl
  | inr e ↦ rw (dsc_files-passed n f files e, e) (find_first files w)
]

-- dsc_information returns the URL and the name of the .dsc file of a package that has exactly one, None twice
-- for a package without, and raises DscCountError for a package with several; it changes nothing.
pub dsc_information_lem :
    {W : Type 0} (p_info : DebianInfo) (w : W)
    → dsc_information p_info w ≡ (dsc_outcome (dsc_files p_info.files), w)
unfolding dsc_information
dsc_information_lem p_info w = find_first p_info.files w
