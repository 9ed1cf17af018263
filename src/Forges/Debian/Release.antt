-- ===== src/Forges/Debian/Release.antt =====
-- package/debian/loader.py: extract_package and DebianLoader.build_release.
use swh_loader_core.Prelude.{
  ℕ, String, true, false, Option, none, some, List, [], ◌∷◌, if◌then◌else◌,
}
use swh_loader_core.Effects.{Exec, pure, throw, value_error, index_error, other, ◌>>=◌}
use swh_loader_core.Model.{Sha1Git, truthy, directory, Release}
use swh_loader_core.Core.Utils.Download.{Extrinsic}
use swh_loader_core.Forges.Text.{join_texts}
use swh_loader_core.Forges.Debian.{DebianInfo, is_dsc, dsc_information}
use swh_loader_core.Forges.Debian.Intrinsic.{
  Parsers, prepare_person, get_intrinsic_package_metadata,
}

-- dpkg-source, and the log that it writes: none, or the exit code of a failure and the log.
pub record Unpacker (W : Type 0) : Type 0 where
  pub dpkg_source : (logfile dsc_path destdir : String) → Exec W (Option (String × String))
  -- os.path.join and os.path.dirname
  pub join : String → String → String
  pub dirname : String → String
  -- TimestampWithTimezone.from_iso8601
  pub from_iso8601 : String → Exec W ℕ

-- `for _, hashes in dl_artifacts`: the first name that ends with ".dsc"
unfoldable pub first_dsc : List (String × Extrinsic) → Option String
first_dsc [] = none
first_dsc (artifact ∷ artifacts) =
    let rest = first_dsc artifacts in
    if is_dsc artifact.1.filename then some artifact.1.filename else rest

module _ {W : Type 0} (unpacker : Unpacker W) where
  -- check_call, and the exception for its failure
  abbrev check_call : Option (String × String) → (destdir : String) → Exec W String
  check_call none destdir = pure destdir
  check_call (some (code, logdata)) destdir =
      throw
        (value_error (join_texts ("dpkg-source exited with code " ∷ code ∷ ": " ∷ logdata ∷ [])))

  abbrev unpack : (a_path dest : String) → Option String → Exec W String
  unpack a_path dest none = throw (other "UnboundLocalError")
  unpack a_path dest (some dsc_name) = do
    let destdir = unpacker.join dest "extracted"
    outcome ←
        unpacker.dpkg_source (unpacker.join dest "extract.log") (unpacker.join a_path dsc_name)
          destdir
    check_call outcome destdir

  -- extract_package; dsc_name without a value is an UnboundLocalError.
  unfoldable pub extract_package : List (String × Extrinsic) → (dest : String) → Exec W String
  unfolding first_dsc
  extract_package [] dest = throw index_error
  extract_package (artifact ∷ artifacts) dest =
      unpack artifact.0 dest (first_dsc (artifact ∷ artifacts))

  -- `"... %s ..." % dsc_url`
  abbrev printed : Option String → String
  printed none = "None"
  printed (some url) = url

  -- `if not dsc_name: raise ValueError(...)`
  abbrev known_name : (dsc_url dsc_name : Option String) → Exec W String
  known_name dsc_url none = throw (
      value_error (join_texts ("dsc name for url " ∷ printed dsc_url ∷ " should not be None" ∷ [])))
  known_name dsc_url (some name) = elim (truthy (some name)) [
    | true ↦ pure name
    | false ↦ throw (
        value_error
          (join_texts ("dsc name for url " ∷ printed dsc_url ∷ " should not be None" ∷ [])))
  ]

  -- build_release
  unfoldable pub build_release :
      Parsers W → DebianInfo → (uncompressed_path : String) → Sha1Git → Exec W (Option Release)
  build_release parsers p_info uncompressed_path directory_id = do
    dsc ← dsc_information p_info
    dsc_name ← known_name dsc.0 dsc.1
    intrinsic_metadata ←
        get_intrinsic_package_metadata parsers p_info
          (unpacker.join (unpacker.dirname uncompressed_path) dsc_name) uncompressed_path
    date ← unpacker.from_iso8601 intrinsic_metadata.changelog.date
    pure (
        some (record {
          name = p_info.intrinsic_version;
          message = some (
              join_texts (
                "Synthetic release for Debian source package " ∷ p_info.name ∷ " version "
                ∷ p_info.intrinsic_version ∷ "\n" ∷ []));
          author = some (prepare_person parsers intrinsic_metadata.changelog.person).fullname;
          date = some date;
          target = some directory_id;
          target_type = directory;
          synthetic = true;
        }))
