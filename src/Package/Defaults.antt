-- ===== src/Package/Defaults.antt =====
-- package/loader.py: the methods of PackageLoader as far as the class itself gives them.
pub mod Verified
pub mod Sorted
use swh_loader_core.Prelude.{
  ℕ, String, Bool, true, false, Option, none, some, List, [], ◌∷◌, map, Dict, last?, if◌then◌else◌,
}
use swh_loader_core.Effects.{
  Exception, Exec, pure, throw, try_base, content_decoding_error, index_error, ◌>>=◌, ◌>>◌,
}
use swh_loader_core.Core.Utils.Download.{Digest, hex, Web, Extrinsic, download}
use swh_loader_core.Package.Info.{PackageInfo}

-- `sorted(..., key=...)` is stable: a value passes those that it is newer than. `newer a b` is a > b.
module _ {A : Type 0} (newer : A → A → Bool) where
  unfoldable pub insert_version : A → List A → List A
  insert_version v [] = v ∷ []
  insert_version v (x ∷ xs) =
      let rest = insert_version v xs in if newer v x then x ∷ rest else v ∷ x ∷ xs

  unfoldable pub sort_versions : List A → List A
  unfolding insert_version
  sort_versions [] = []
  sort_versions (v ∷ vs) = insert_version v (sort_versions vs)

-- `versions[-1]`
abbrev pub last_version : {W : Type 0} → Option String → Exec W String
last_version none = throw index_error
last_version (some version) = pure version

module _ {W : Type 0} (newer : String → String → Bool) (get_versions : Exec W (List String)) where
  -- get_sorted_versions
  unfoldable pub get_sorted_versions : Exec W (List String)
  unfolding sort_versions
  get_sorted_versions = do versions ← get_versions; pure (sort_versions newer versions)

  -- get_default_version
  unfoldable pub get_default_version : Exec W String
  unfolding get_sorted_versions
  get_default_version = do versions ← get_sorted_versions; last_version (last? versions)

abbrev pub identity : Dict String String
identity = ("Accept-Encoding", "identity") ∷ []

-- `except ContentDecodingError`
abbrev pub on_decoding_error : {W A : Type 0} → Exec W A → Exception → Exec W A
on_decoding_error retry content_decoding_error = retry
on_decoding_error retry e = throw e

module _ {W : Type 0} (web : Web W) where
  -- One download of the package with the headers.
  unfoldable pub fetch_package :
      PackageInfo → (tmpdir : String) → Dict String String → Exec W (List (String × Extrinsic))
  fetch_package p_info tmpdir headers = do
    artifact ← download web p_info.url tmpdir p_info.checksums p_info.filename headers
    pure (artifact ∷ [])

  -- download_package
  unfoldable pub download_package :
      PackageInfo → (tmpdir : String) → Exec W (List (String × Extrinsic))
  unfolding fetch_package
  download_package p_info tmpdir =
      try_base (fetch_package p_info tmpdir [])
        (on_decoding_error (fetch_package p_info tmpdir identity))

  -- `for a_path, _ in dl_artifacts`
  unfoldable pub uncompress_all :
      (uncompress : (a_path dest : String) → Exec W (Unit {0}))
      → List (String × Extrinsic)
      → (dest : String) → Exec W (Unit {0})
  uncompress_all uncompress [] dest = pure tt
  uncompress_all uncompress (artifact ∷ artifacts) dest = do
    uncompress artifact.0 dest
    uncompress_all uncompress artifacts dest

  -- uncompress
  unfoldable pub uncompress_package :
      (uncompress : (a_path dest : String) → Exec W (Unit {0}))
      → List (String × Extrinsic)
      → (dest : String) → Exec W String
  unfolding uncompress_all
  uncompress_package uncompress dl_artifacts dest = do
    let uncompressed_path = web.join dest "src"
    uncompress_all uncompress dl_artifacts uncompressed_path
    pure uncompressed_path
