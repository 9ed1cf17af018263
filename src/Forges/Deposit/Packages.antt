-- ===== src/Forges/Deposit/Packages.antt =====
-- package/deposit/loader.py: DepositPackageInfo and the methods of DepositLoader that give the packages
-- and their metadata.
use Prim.Native.String
use swh_loader_core.Prelude.{
  ℕ, String, true, false, Option, none, some, List, [], ◌∷◌, decimal, string_eq, ◌==◌,
}
use swh_loader_core.Effects.{Exec, pure, throw, assert, other, ◌>>=◌, ◌>>◌}
use swh_loader_core.Model.{
  Sha1Git, truthy, directory, Release, MetadataAuthority, MetadataFetcher, RawExtrinsicMetadataCore,
}
use swh_loader_core.Core.Utils.Download.{Extrinsic}
use swh_loader_core.Package.Info.{PackageInfo}
use swh_loader_core.Package.Release.{ends_with_newline}
use swh_loader_core.Forges.Json.{
  Json, null, bool, int, str, list, dict, no_items, item_and, no_entries, entry_and, type_error,
  as_list, as_int, as_optional, item, str_item, each, Cache,
}
use swh_loader_core.Forges.Person.{Person}
use swh_loader_core.Forges.Deposit.Branches.{Unicode, Names, generate_branch_name}
use swh_loader_core.Forges.Deposit.Client.{Http, ApiClient, metadata_get, releases_get, archive_get}

-- DepositPackageInfo: the fields that it adds. The dates are the mappings that swh.model reads.
pub record DepositInfo : Type 0 where
  pub base : PackageInfo
  pub filename : String
  pub author_date : Json
  pub commit_date : Json
  pub client : String
  pub id : ℕ
  pub collection : String
  pub author : Person
  pub committer : Person
  pub release_notes : Option String

-- The clock, json.dumps, TimestampWithTimezone.from_dict, and where the branch names are kept.
pub record Runtime (W : Type 0) : Type 0 where
  pub now : Exec W ℕ
  pub dumps : Json → String
  pub timestamp : Json → Exec W ℕ
  pub names : W → Names
  pub set_names : Names → W → W

-- `self.deposit_id` and its like
pub record DepositConfig : Type 0 where
  pub deposit_id : String
  pub default_filename : String
  pub unicode : Unicode

abbrev pub sword_format : String
sword_format = "sword-v2-atom-codemeta-v2"

module _ {W : Type 0} where
  -- parse_author
  unfoldable pub parse_author : Json → Exec W Person
  parse_author author = do
    fullname ← str_item "fullname" author
    name ← str_item "name" author
    email ← str_item "email" author
    pure (record { fullname = fullname; name = some name; email = some email })

  -- f"{deposit_id}" of an identifier, an int or a str
  unfoldable pub id_text : Json → Exec W String
  id_text (int n) = pure (decimal n)
  id_text (str s) = pure s
  id_text _ = throw type_error

  -- DepositPackageInfo.from_metadata
  unfoldable pub from_metadata :
      Exec W ℕ → (metadata : Json) → (url filename version : String) → Exec W DepositInfo
  unfolding parse_author
  from_metadata now metadata url filename version = do
    raw_metadata ← str_item "raw_metadata" metadata
    depo ← item "deposit" metadata
    author_date ← item "author_date" depo
    commit_date ← item "committer_date" depo
    client ← str_item "client" depo
    id_item ← item "id" depo
    id ← as_int id_item
    collection ← str_item "collection" depo
    author_item ← item "author" depo
    author ← parse_author author_item
    committer_item ← item "committer" depo
    committer ← parse_author committer_item
    notes_item ← item "release_notes" depo
    release_notes ← as_optional notes_item
    discovery_date ← now
    pure (record {
      base = record {
        url = url;
        filename = some filename;
        version = version;
        directory_extrinsic_metadata =
            record {
              format = sword_format;
              metadata = raw_metadata;
              discovery_date = some discovery_date;
            }
            ∷ [];
        checksums = [];
        manifest = none;
      };
      filename = filename;
      author_date = author_date;
      commit_date = commit_date;
      client = client;
      id = id;
      collection = collection;
      author = author;
      committer = committer;
      release_notes = release_notes;
    })

  -- `next(d for d in releases if d["software_version"] == version)`; the StopIteration of a generator
  -- is a RuntimeError.
  unfoldable pub find_release : (version : String) → List Json → Exec W Json
  find_release version [] = throw (other "RuntimeError")
  find_release version (d ∷ releases) = do
    found ← str_item "software_version" d
    let rest = find_release version releases
    elim (found == version) [ true ↦ pure d | false ↦ rest ]

  -- `**(extra or {})` takes a mapping, or a value that is false.
  unfoldable pub check_mapping : Json → Exec W (Unit {0})
  check_mapping null = pure tt
  check_mapping (bool false) = pure tt
  check_mapping (str s) = elim (s == "") [ true ↦ pure tt | false ↦ throw type_error ]
  check_mapping (int Prim.Native.Nat.zero) = pure tt
  check_mapping (list no_items) = pure tt
  check_mapping (dict ps) = pure tt
  check_mapping _ = throw type_error

-- `if p_info.release_notes: message += "\n\n" + p_info.release_notes`
abbrev pub with_notes : String → Option String → String
with_notes message none = message
with_notes message (some notes) = elim (truthy (some notes)) [
  | true ↦ String.◌++◌ message (String.◌++◌ "\n\n" notes)
  | false ↦ message
]

-- The message of build_release.
unfoldable pub release_message : DepositInfo → String
release_message p_info =
    let head = String.◌++◌ p_info.client (
      String.◌++◌ ": Deposit "
        (String.◌++◌ (decimal p_info.id) (String.◌++◌ " in collection " p_info.collection))) in
    let message = with_notes head p_info.release_notes in
    elim (ends_with_newline message) [ true ↦ message | false ↦ String.◌++◌ message "\n" ]

module _ {W : Type 0} (http : Http W) (client : ApiClient)
    (metadata_cache releases_cache : Cache W String Json) (runtime : Runtime W)
    (config : DepositConfig) where
  unfoldable pub metadata : Exec W Json
  metadata = metadata_get http client metadata_cache config.deposit_id

  -- get_versions
  unfoldable pub get_versions : Exec W (List String)
  get_versions = do
    answer ← releases_get http client releases_cache config.deposit_id
    releases ← as_list answer
    each (str_item "software_version") releases

  -- get_metadata_authority
  unfoldable pub get_metadata_authority : Exec W MetadataAuthority
  unfolding metadata check_mapping
  get_metadata_authority = do
    answer ← metadata
    provider ← item "provider" answer
    provider_type ← str_item "provider_type" provider
    assert (provider_type == "deposit_client")
    url ← str_item "provider_url" provider
    name ← item "provider_name" provider
    extra ← item "metadata" provider
    check_mapping extra
    pure (record { type = "deposit_client"; url = url })

  -- get_metadata_fetcher
  unfoldable pub get_metadata_fetcher : Exec W MetadataFetcher
  unfolding metadata
  get_metadata_fetcher = do
    answer ← metadata
    tool ← item "tool" answer
    name ← str_item "name" tool
    version ← str_item "version" tool
    configuration ← item "configuration" tool
    pure (record { name = name; version = version })

  -- self.generate_branch_name, on the names that the loader keeps
  unfoldable pub issue_name : (version : String) → Exec W String
  issue_name version w =
      let r = generate_branch_name config.unicode version (runtime.names w) in
      (r.0, runtime.set_names r.1 w)

  -- get_package_info: the only pair that the generator yields
  unfoldable pub get_package_info : (version : String) → Exec W (String × DepositInfo)
  unfolding from_metadata find_release issue_name id_text
  get_package_info version = do
    answer ← releases_get http client releases_cache config.deposit_id
    releases ← as_list answer
    deposit ← find_release version releases
    id_item ← item "id" deposit
    id ← id_text id_item
    answer ← metadata_get http client metadata_cache id
    url ← str_item "origin_url" deposit
    found_version ← str_item "software_version" deposit
    p_info ← from_metadata runtime.now answer url config.default_filename found_version
    name ← issue_name version
    pure (name, p_info)

  -- download_package
  unfoldable pub download_package :
      DepositInfo → (tmpdir : String) → Exec W (List (String × Extrinsic))
  download_package p_info tmpdir = do
    artifact ← archive_get http client (decimal p_info.id) tmpdir p_info.filename
    pure (artifact ∷ [])

  -- build_release
  unfoldable pub build_release : DepositInfo → Sha1Git → Exec W (Option Release)
  unfolding release_message
  build_release p_info directory_id = do
    date ← runtime.timestamp p_info.author_date
    pure (
        some (record {
          name = p_info.base.version;
          message = some (release_message p_info);
          author = some p_info.author.fullname;
          date = some date;
          target = some directory_id;
          target_type = directory;
          synthetic = true;
        }))

  -- get_extrinsic_origin_metadata
  unfoldable pub get_extrinsic_origin_metadata : Exec W (List RawExtrinsicMetadataCore)
  unfolding metadata
  get_extrinsic_origin_metadata = do
    answer ← metadata
    raw_metadata ← str_item "raw_metadata" answer
    provider ← item "provider" answer
    tool ← item "tool" answer
    first_date ← runtime.now
    second_date ← runtime.now
    pure (
        record { format = sword_format; metadata = raw_metadata; discovery_date = some first_date }
        ∷ record {
          format = "original-artifacts-json";
          metadata = runtime.dumps (
              dict (
                entry_and "metadata" (list (item_and (str raw_metadata) no_items))
                  (entry_and "provider" provider (entry_and "tool" tool no_entries))));
          discovery_date = some second_date;
        }
        ∷ [])
