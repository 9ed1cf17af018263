-- ===== src/Forges/Maven.antt =====
-- package/maven/loader.py
pub mod Instance
use Prim.Native.String
use swh_loader_core.Prelude.{
  ℕ, String, Bool, true, false, Option, none, some, List, [], ◌∷◌, ◌++◌, Dict, lookup, insert, map,
  add, string_eq, nat_beq,
}
use swh_loader_core.Effects.{
  Exception, Exec, Result, ok, raise, pure, throw, try_base, value_error, http_error, not_found,
  ◌>>=◌, ◌>>◌,
}
use swh_loader_core.Model.{
  Sha1Git, truthy, directory, Release, MetadataAuthority, RawExtrinsicMetadataCore,
}
use swh_loader_core.Core.Utils.Download.{Digest, hex}
use swh_loader_core.Core.Utils.{release_name}
use swh_loader_core.Package.Info.{PackageInfo}
use swh_loader_core.Forges.Text.{join_texts, is_slash, last_part}
use swh_loader_core.Forges.Json.{present}
use swh_loader_core.Forges.Person.{Person, empty_author}

-- ArtifactDict
pub record Artifact : Type 0 where
  pub time : String
  pub url : String
  pub filename : Option String
  pub gid : String
  pub aid : String
  pub version : String
  pub base_url : String

-- MavenPackageInfo
pub record MavenInfo : Type 0 where
  pub base : PackageInfo
  pub time : ℕ
  pub gid : String
  pub aid : String
  pub base_url : String

-- `{jar["version"]: jar for jar in artifacts if jar["version"]}`
unfoldable pub version_artifact : List Artifact → Dict String Artifact → Dict String Artifact
version_artifact [] found = found
version_artifact (jar ∷ artifacts) found =
    version_artifact artifacts (with_jar (truthy (some jar.version)))
  where
    with_jar : Bool → Dict String Artifact
    with_jar true = insert jar.version jar found
    with_jar false = found

-- `{jar["base_url"] for jar in artifacts}`
unfoldable pub base_urls : List Artifact → List String
base_urls [] = []
base_urls (jar ∷ artifacts) = add jar.base_url (base_urls artifacts)

-- `", ".join(base_urls)`
abbrev join_commas : List String → String
join_commas [] = ""
join_commas (s ∷ []) = s
join_commas (s ∷ t ∷ rest) = String.◌++◌ s (String.◌++◌ ", " (join_commas (t ∷ rest)))

-- `(self.base_url,) = base_urls`, where there are artifacts
abbrev pub only_url : List String → Result (Option String)
only_url [] = ok none
only_url (base_url ∷ []) = ok (some base_url)
only_url (url ∷ other ∷ urls) = raise (
    value_error (
      String.◌++◌ "Artifacts originate from more than one Maven instance: "
        (join_commas (url ∷ other ∷ urls))))

-- What __init__ makes of self.base_url: none without artifacts.
unfoldable pub choose_base_url : List Artifact → Result (Option String)
unfolding base_urls
choose_base_url artifacts = only_url (base_urls artifacts)

-- get_versions
abbrev pub get_versions : List Artifact → List String
get_versions artifacts = map (λ (a : String × Artifact). a.0) (version_artifact artifacts [])

-- What the loader uses of the network, of iso8601 and of json.
pub record Network (W : Type 0) : Type 0 where
  pub get_url_body : String → Exec W String
  -- requests.get with redirects: the status code and the content
  pub get : String → Exec W (ℕ × String)
  pub parse_date : String → Exec W ℕ
  -- str of a datetime
  pub print_date : ℕ → String
  pub dumps : Artifact → String
  pub dirname : String → String

-- `except (requests.HTTPError, NotFound): pass`
abbrev pub on_missing : {W A : Type 0} → Exec W A → Exception → Exec W A
on_missing next (http_error code) = next
on_missing next (not_found m) = next
on_missing next e = throw e

abbrev file_of : Option String → (url : String) → String
file_of none url = last_part is_slash url
file_of (some filename) url = elim (truthy (some filename)) [
  | true ↦ filename
  | false ↦ last_part is_slash url
]

module _ {W : Type 0} (network : Network W) where
  -- `for algo in ("sha1", "md5")`: the first checksum that the server has.
  unfoldable pub find_checksum :
      (url : String) → (algos : List String) → Exec W (Dict String Digest)
  find_checksum url [] = pure []
  find_checksum url (algo ∷ algos) =
      let next = find_checksum url algos in
      try_base
        (do
          body ← network.get_url_body (join_texts (url ∷ "." ∷ algo ∷ []))
          pure ((algo, hex body) ∷ []))
        (on_missing next)

  -- MavenPackageInfo.from_metadata; the manifest is MANIFEST_FORMAT with the attributes put in.
  unfoldable pub from_metadata : (a_metadata : Artifact) → Exec W MavenInfo
  unfolding find_checksum
  from_metadata a_metadata = do
    time ← network.parse_date a_metadata.time
    checksums ← find_checksum a_metadata.url ("sha1" ∷ "md5" ∷ [])
    pure (record {
      base = record {
        url = a_metadata.url;
        filename = some (file_of a_metadata.filename a_metadata.url);
        version = a_metadata.version;
        directory_extrinsic_metadata =
            record {
              format = "maven-json";
              metadata = network.dumps a_metadata;
              discovery_date = none;
            }
            ∷ [];
        checksums = checksums;
        manifest = some (
            join_texts (
              a_metadata.gid
              ∷ " "
              ∷ a_metadata.aid
              ∷ " "
              ∷ a_metadata.version
              ∷ " "
              ∷ a_metadata.url
              ∷ " "
              ∷ network.print_date time
              ∷ []));
      };
      time = time;
      gid = a_metadata.gid;
      aid = a_metadata.aid;
      base_url = a_metadata.base_url;
    })

  -- get_package_info: the only pair that the generator yields
  unfoldable pub get_package_info :
      (artifacts : Dict String Artifact) → (version : String) → Exec W (String × MavenInfo)
  unfolding from_metadata
  get_package_info artifacts version = do
    a_metadata ← present (lookup version artifacts)
    p_info ← from_metadata a_metadata
    pure (release_name a_metadata.version none, p_info)

  -- `r.content` if the status code is 200
  abbrev pom_of : ℕ × String → String
  pom_of (status_code, content) = elim (nat_beq status_code 200) [ true ↦ content | false ↦ "" ]

  -- build_extrinsic_directory_metadata, up to the call of the method of the superclass: the package with
  -- the POM among its metadata.
  unfoldable pub with_pom : MavenInfo → Exec W PackageInfo
  with_pom p_info = do
    r ← network.get (
        join_texts (
          network.dirname p_info.base.url
          ∷ "/"
          ∷ p_info.aid
          ∷ "-"
          ∷ p_info.base.version
          ∷ ".pom"
          ∷ []))
    let pom : RawExtrinsicMetadataCore = record {
      format = "maven-pom";
      metadata = pom_of r;
      discovery_date = none;
    }
    pure (record p_info.base {
      directory_extrinsic_metadata = p_info.base.directory_extrinsic_metadata ++ pom ∷ [];
    })

-- build_release
unfoldable pub build_release :
    (from_fullname : String → Person) → MavenInfo → Sha1Git → Option Release
build_release from_fullname p_info directory_id = some (record {
  name = p_info.base.version;
  message = some (join_texts ("Synthetic release for archive at " ∷ p_info.base.url ∷ "\n" ∷ []));
  author = some (empty_author from_fullname).fullname;
  date = some p_info.time;
  target = some directory_id;
  target_type = directory;
  synthetic = true;
})
