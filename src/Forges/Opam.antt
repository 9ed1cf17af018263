-- ===== src/Forges/Opam.antt =====
-- package/opam/loader.py. The opam binary and the disk are parameters.
pub mod Checksums
pub mod RoundTrip
use Prim.Native.Char.{Char, code}
use Prim.Native.String
use swh_loader_core.Prelude.{
  ℕ, String, Bool, true, false, not, ◌&&◌, ◌||◌, Option, none, some, List, [], ◌∷◌, ◌++◌, Dict,
  lookup, insert, map, is_empty, string_eq, nat_beq, if◌then◌else◌,
}
use swh_loader_core.Effects.{Exec, pure, throw, value_error, other, ◌>>=◌, ◌>>◌}
use swh_loader_core.Model.{Sha1Git, truthy, directory, Release, MetadataAuthority}
use swh_loader_core.Core.Utils.Download.{hex}
use swh_loader_core.Core.Utils.{cached_method}
use swh_loader_core.Package.Info.{PackageInfo}
use swh_loader_core.Forges.Text.{join_texts, strip, split_words, split_once, splitlines}
use swh_loader_core.Forges.Json.{Cache}
use swh_loader_core.Forges.Person.{Person}
use swh_loader_core.Forges.Opam.Checksums.{is_quote, parse_checksums}

-- OpamPackageInfo
pub record OpamInfo : Type 0 where
  pub base : PackageInfo
  pub author : Person
  pub committer : Person

-- OpamLoader.__init__
pub record OpamConfig : Type 0 where
  pub opam_root : String
  pub opam_instance : String
  pub opam_url : String
  pub opam_package : String
  pub origin_url : String

pub record System (W : Type 0) : Type 0 where
  -- shutil.which("opam")
  pub which_opam : Exec W (Option String)
  -- subprocess.run with check=True, which gives its output
  pub run : List String → Exec W String
  pub exists : String → Exec W Bool
  pub is_file : String → Exec W Bool
  pub listdir : String → Exec W (List String)
  pub join : String → String → String
  -- str.isspace
  pub is_space : Char → Bool
  pub from_fullname : String → Person

module _ (config : OpamConfig) where
  -- get_package_dir
  abbrev pub get_package_dir : String
  get_package_dir =
      join_texts (
        config.opam_root ∷ "/repo/" ∷ config.opam_instance ∷ "/packages/" ∷ config.opam_package
        ∷ [])

  -- get_package_name
  abbrev pub get_package_name : (version : String) → String
  get_package_name version = join_texts (config.opam_package ∷ "." ∷ version ∷ [])

  -- get_package_file
  abbrev pub get_package_file : (version : String) → String
  get_package_file version =
      join_texts (get_package_dir ∷ "/" ∷ get_package_name version ∷ "/opam" ∷ [])

  -- get_metadata_authority
  abbrev pub get_metadata_authority : MetadataAuthority
  get_metadata_authority = record { type = "forge"; url = config.opam_url }

-- The text of the error of opam(), which the source gives no f before its quotes.
abbrev no_opam : String
no_opam = "No opam executable found in path {os.environ['PATH']}"

module _ {W : Type 0} (system : System W) (config : OpamConfig) where
  -- opam
  unfoldable pub opam : Exec W String
  opam = do
    found ← system.which_opam
    elim found [
      | none ↦ throw (other no_opam)
      | some path ↦ elim (truthy (some path)) [ true ↦ pure path | false ↦ throw (other no_opam) ]
    ]

  -- A full init of the opam root
  unfoldable pub init_root : Exec W (Unit {0})
  unfolding opam
  init_root = do
    path ← opam
    system.run (
        path ∷ "init" ∷ "--reinit" ∷ "--bare" ∷ "--no-setup" ∷ "--root" ∷ config.opam_root
        ∷ config.opam_instance ∷ config.opam_url ∷ [])
    pure tt

  -- Another repository in an opam root
  unfoldable pub add_repository : Exec W (Unit {0})
  unfolding opam
  add_repository = do
    path ← opam
    system.run (
        path ∷ "repository" ∷ "add" ∷ "--set-default" ∷ "--root" ∷ config.opam_root
        ∷ config.opam_instance ∷ config.opam_url ∷ [])
    pure tt

  -- `not os.path.exists(self.opam_root) or not os.listdir(self.opam_root)`
  unfoldable pub is_bare : Exec W Bool
  is_bare = do
    found ← system.exists config.opam_root
    elim found [
      | false ↦ pure true
      | true ↦ do files ← system.listdir config.opam_root; pure (is_empty files)
    ]

  -- `not os.path.exists(repo_path) and not os.path.exists(repo_path + ".tar.gz")`
  unfoldable pub is_missing : (repo_path : String) → Exec W Bool
  is_missing repo_path = do
    found ← system.exists repo_path
    elim found [
      | true ↦ pure false
      | false ↦ do archive ← system.exists (String.◌++◌ repo_path ".tar.gz"); pure (not archive)
    ]

  unfoldable pub set_up : (missing : Bool) → Exec W (Unit {0})
  unfolding is_bare init_root add_repository
  set_up false = pure tt
  set_up true = do bare ← is_bare; elim bare [ true ↦ init_root | false ↦ add_repository ]

  -- _opam_init
  unfoldable pub opam_init : Exec W (Unit {0})
  unfolding is_missing set_up
  opam_init = do
    missing ← is_missing (system.join (system.join config.opam_root "repo") config.opam_instance)
    set_up missing
    found ← system.is_file (system.join config.opam_root "config")
    elim found [ true ↦ pure tt | false ↦ throw (value_error "Invalid opam root") ]

  -- `self.get_package_name(version) if version else self.opam_package`
  abbrev package_of : Option String → String
  package_of none = config.opam_package
  package_of (some version) =
      if truthy (some version) then get_package_name config version else config.opam_package

  -- _opam_show_args
  unfoldable pub opam_show_args : (version : Option String) → Exec W (List String)
  unfolding opam
  opam_show_args version = do
    path ← opam
    pure (
        path
        ∷ "show"
        ∷ "--color"
        ∷ "never"
        ∷ "--safe"
        ∷ "--normalise"
        ∷ "--root"
        ∷ config.opam_root
        ∷ package_of version
        ∷ [])

  -- `.strip().strip('"')`
  abbrev sanitized : String → String
  sanitized value = strip is_quote (strip system.is_space value)

  abbrev first_line : List String → Option String
  first_line [] = none
  first_line (line ∷ lines) = some (sanitized line)

  -- get_enclosed_single_line_field
  unfoldable pub get_enclosed_single_line_field :
      (field : String) → (version : Option String) → Exec W (Option String)
  unfolding opam_show_args
  get_enclosed_single_line_field field version = do
    args ← opam_show_args version
    stdout ← system.run (args ++ "--field" ∷ field ∷ [])
    pure (first_line (splitlines stdout))

  -- `for line in result.stdout.splitlines()`
  unfoldable pub read_fields : List String → Dict String String → Dict String String
  read_fields [] ret = ret
  read_fields (line ∷ lines) ret = read_fields lines (with_line (split_once system.is_space line))
    where
      with_line : List String → Dict String String
      with_line (key ∷ value ∷ _) = insert key (sanitized value) ret
      with_line _ = ret

  -- get_enclosed_fields for the four fields of get_package_info
  unfoldable pub get_enclosed_fields : (version : Option String) → Exec W (Dict String String)
  unfolding opam_show_args read_fields
  get_enclosed_fields version = do
    args ← opam_show_args version
    stdout ← system.run (args ++ "--field" ∷ "url.src:,url.checksum:,authors:,maintainer:" ∷ [])
    pure (read_fields (splitlines stdout) [])

  -- `if not value: raise ValueError(...)`
  abbrev needed : (problem : String) → Option String → Exec W String
  needed problem none = throw (value_error problem)
  needed problem (some value) = elim (truthy (some value)) [
    | true ↦ pure value
    | false ↦ throw (value_error problem)
  ]

  -- _compute_versions, without its cache
  unfoldable pub compute_versions : Exec W (List String)
  unfolding get_enclosed_single_line_field
  compute_versions = do
    found ← get_enclosed_single_line_field "all-versions" none
    versions_str ←
        needed
          (join_texts (
            "can't get versions for package " ∷ config.opam_package ∷ " (at url "
            ∷ config.origin_url ∷ ")" ∷ []))
          found
    pure (split_words system.is_space versions_str)

  -- get_versions
  unfoldable pub get_versions : Cache W (Unit {0}) (List String) → Exec W (List String)
  unfolding opam_init compute_versions
  get_versions cache = do opam_init; cached_method (cache.look tt) (cache.keep tt) compute_versions

  -- `Person.from_fullname(b"" if field is None else str.encode(field))`
  abbrev person_of : Option String → Person
  person_of none = system.from_fullname ""
  person_of (some fullname) = system.from_fullname fullname

  -- `if checksums_str: ...`
  abbrev checksums_of : Option String → Exec W (Dict String String)
  checksums_of none = pure []
  checksums_of (some checksums_str) = elim (truthy (some checksums_str)) [
    | true ↦ parse_checksums checksums_str
    | false ↦ pure []
  ]

  -- get_package_info: the only pair that the generator yields
  unfoldable pub get_package_info : (version : String) → Exec W (String × OpamInfo)
  unfolding get_enclosed_fields opam_show_args
  get_package_info version = do
    fields ← get_enclosed_fields (some version)
    url ←
        needed
          (join_texts (
            "can't get field url.src: for version " ∷ version ∷ " of package " ∷ config.opam_package
            ∷ " (at url " ∷ config.origin_url ∷ ") from `opam show`" ∷ []))
          (lookup "url.src:" fields)
    checksums ← checksums_of (lookup "url.checksum:" fields)
    args ← opam_show_args (some version)
    metadata ← system.run (args ++ "--raw" ∷ [])
    pure (
      get_package_name config version,
      record {
        base = record {
          url = url;
          filename = none;
          version = version;
          directory_extrinsic_metadata =
              record {
                format = "opam-package-definition";
                metadata = metadata;
                discovery_date = none;
              }
              ∷ [];
          checksums = map (λ (c : String × String). (c.0, hex c.1)) checksums;
          manifest = none;
        };
        author = person_of (lookup "authors:" fields);
        committer = person_of (lookup "maintainer:" fields);
      },
    )

-- build_release
unfoldable pub build_release : OpamConfig → OpamInfo → Sha1Git → Option Release
build_release config p_info directory_id = some (record {
  name = p_info.base.version;
  message = some (
      join_texts (
        "Synthetic release for OPAM source package " ∷ config.opam_package ∷ " version "
        ∷ p_info.base.version ∷ "\n" ∷ []));
  author = some p_info.author.fullname;
  date = none;
  target = some directory_id;
  target_type = directory;
  synthetic = true;
})
