-- ===== src/Package/Extids/Samples.antt =====
-- package/loader.py: known ExtIDs of one package.
use swh_loader_core.Prelude.{
  ℕ, String, All, ◌≡◌, refl, Option, none, some, List, [], ◌∷◌, entries, keep, pair_eq, string_eq,
  nat_eq, ◌==◌,
}
use swh_loader_core.Effects.{ok}
use swh_loader_core.Effects.Hoare.{Post}
use swh_loader_core.Model.{Swhid, PartialExtId, partial_extid_eq, ExtId, release, revision}
use swh_loader_core.Storage.{Storage}
use swh_loader_core.Package.Info.{PackageInfo}
use swh_loader_core.Package.Extids.{
  Known, get_known_extids, select_extid_target, resolve_object_from_extids,
}
use swh_loader_core.Package.Extids.Grouping.{extids_of}
use swh_loader_core.Package.Extids.Asking.{targets_with, HasType, Serves, get_known_extids_lem}
use swh_loader_core.Package.Extids.Resolution.{
  Answers, IsResolved, resolve_sound, select_extid_target-Chooses,
}
use swh_loader_core.Samples.{give, quiet_storage}

abbrev key : PartialExtId
key = record { extid_type = "pypi"; extid_version = 0; extid = "e" }

abbrev a_release : Swhid
a_release = record { object_type = release; object_id = "r1" }

abbrev a_revision : Swhid
a_revision = record { object_type = revision; object_id = "v1" }

abbrev answers : List (Option ExtId)
answers = none ∷ some (record { key = key; target = a_release }) ∷ []

abbrev sample_package : PackageInfo
sample_package = record {
  url = "https://example.org/p-1.0.tgz";
  filename = none;
  version = "1.0";
  directory_extrinsic_metadata = [];
  checksums = [];
  manifest = none;
}

-- A storage that knows the release of the extid "e".
abbrev find : String → List String → ℕ → List (Option ExtId)
find t [] v = []
find t (x ∷ es) v =
    none
    ∷ some (record {
      key = record { extid_type = t; extid_version = v; extid = x };
      target = a_release;
    })
    ∷ []

abbrev knowing_storage : Storage ℕ
knowing_storage = record quiet_storage { extid_get_from_extid = λ t es v. give (find t es v) }

knowing_storage-Serves : Serves knowing_storage find
knowing_storage-Serves = record {
  answers = λ t es v w. refl;
  typed = find-typed;
  nothing = λ t v. refl;
}
  where
    find-typed : (t : String) (es : List String) (v : ℕ) → All (HasType t) (find t es v)
    find-typed t [] v = tt
    find-typed t (x ∷ es) v = (tt, (refl, tt))

get_known_extids_lem_example :
    (known : Known) × ((get_known_extids knowing_storage (λ p. some key) (sample_package ∷ []) 0
        ≡ (ok known, 0))
      × ((k : PartialExtId)
          → entries k known
            ≡ targets_with k.extid (
                find k.extid_type
                  (extids_of (k.extid_type, k.extid_version) (some key ∷ []))
                  k.extid_version)))
get_known_extids_lem_example =
    get_known_extids_lem find knowing_storage knowing_storage-Serves (λ p. some key)
      (sample_package ∷ []) 0

-- A storage that misses the release r1.
abbrev forgetful_storage : Storage ℕ
forgetful_storage = record quiet_storage {
  release_missing = λ ids. give (keep (λ id. id == "r1") ids);
}

abbrev known : Known
known = (key, a_release ∷ a_revision ∷ []) ∷ []

resolve_sound_example :
    Post
      (λ r _.
        Answers (IsResolved (λ p. some key) known sample_package ("v1" ∷ []) (λ id. id == "r1")) r)
      (λ _ _. Unit)
      (resolve_object_from_extids forgetful_storage select_extid_target
        (λ p. some key)
        known
        sample_package
        ("v1" ∷ [])
        0)
resolve_sound_example =
    resolve_sound forgetful_storage select_extid_target (λ id. id == "r1")
      select_extid_target-Chooses (λ ids w. refl) (λ p. some key) known sample_package ("v1" ∷ []) 0
