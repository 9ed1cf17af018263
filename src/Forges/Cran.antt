-- ===== src/Forges/Cran.antt =====
-- package/cran/loader.py
use Prim.Native.Char.{Char, code}
use swh_loader_core.Prelude.{
  ℕ, zero, suc, String, Bool, true, false, Option, none, some, List, [], ◌∷◌, Dict, lookup, insert,
  string_eq, nat_beq, ◌==◌,
}
use swh_loader_core.Effects.{Exec, pure, try_except, ◌>>=◌}
use swh_loader_core.Model.{Sha1Git, truthy, directory, Release}
use swh_loader_core.Core.Utils.Download.{Digest, hex}
use swh_loader_core.Core.Utils.{release_name}
use swh_loader_core.Package.Info.{PackageInfo}
use swh_loader_core.Forges.Text.{join_texts, is_slash, last_part}
use swh_loader_core.Forges.Json.{Json, dict, no_entries, as_dict, as_str, str_item, get, each}
use swh_loader_core.Forges.Host.{Host}

-- CRANPackageInfo
pub record CranInfo : Type 0 where
  pub base : PackageInfo
  pub raw_info : Json
  pub name : String

-- `a_metadata.get("checksums", {})`
abbrev or_none_given : Option Json → Json
or_none_given none = dict no_entries
or_none_given (some v) = v

module _ {W : Type 0} where
  abbrev checksum : String × Json → Exec W (String × Digest)
  checksum c = do value ← as_str c.1; pure (c.0, hex value)

  -- CRANPackageInfo.from_metadata; the manifest is MANIFEST_FORMAT with the attributes put in.
  unfoldable pub from_metadata : (a_metadata : Json) → Exec W CranInfo
  from_metadata a_metadata = do
    url ← str_item "url" a_metadata
    name ← str_item "package" a_metadata
    version ← str_item "version" a_metadata
    given ← get "checksums" a_metadata
    d ← as_dict (or_none_given given)
    checksums ← each checksum d
    pure (record {
      base = record {
        url = url;
        filename = some (last_part is_slash url);
        version = version;
        directory_extrinsic_metadata = [];
        checksums = checksums;
        manifest = some (join_texts (version ∷ " " ∷ url ∷ []));
      };
      raw_info = a_metadata;
      name = name;
    })

  -- get_versions
  unfoldable pub get_versions : (artifacts : List Json) → Exec W (List String)
  get_versions artifacts = each (str_item "version") artifacts

  -- get_package_info: what the generator yields, if none of the artifacts makes it raise.
  unfoldable pub get_package_info :
      (artifacts : List Json) → (version : String) → Exec W (List (String × CranInfo))
  unfolding from_metadata
  get_package_info [] version = pure []
  get_package_info (a_metadata ∷ artifacts) version = do
    p_info ← from_metadata a_metadata
    rest ← get_package_info artifacts version
    pure (elim (version == p_info.base.version) [
      | true ↦ (release_name version none, p_info) ∷ rest
      | false ↦ rest
    ])

-- What parse_date uses of datetime, dateutil and re. `\d` takes the digits of Unicode.
pub record Dates (W : Type 0) : Type 0 where
  pub is_digit : Char → Bool
  -- int(s) on a text of digits
  pub int : String → ℕ
  -- datetime.datetime(year, month, 1), which refuses some numbers
  pub first_of_month : (year month : ℕ) → Exec W ℕ
  -- dateutil.parser.parse; a time without a zone is one of UTC.
  pub parse : String → Exec W ℕ

-- The first characters of a text, if they are all digits, and what follows.
unfoldable pub digits : (is_digit : Char → Bool) → (count : ℕ) → String → Option (String × String)
digits is_digit zero s = some ("", s)
digits is_digit (suc count) String.[] = none
digits is_digit (suc count) (String.◌∷◌ c s) =
    let rest = digits is_digit count s in
    elim (is_digit c) [
      | false ↦ none
      | true ↦ elim rest [ none ↦ none | some (front, back) ↦ some (String.◌∷◌ c front, back) ]
    ]

-- `-` and what follows
abbrev after_dash : String → Option String
after_dash String.[] = none
after_dash (String.◌∷◌ c s) = elim (nat_beq (code c) b'-') [ true ↦ some s | false ↦ none ]

-- `$` is at the end, or before a newline there.
abbrev at_end : String → Bool
at_end String.[] = true
at_end (String.◌∷◌ c String.[]) = nat_beq (code c) 10
at_end _ = false

module _ (is_digit : Char → Bool) where
  abbrev month_of : (year : String) → Option (String × String) → Option (String × String)
  month_of year none = none
  month_of year (some (month, rest)) = elim (at_end rest) [
    | true ↦ some (year, month)
    | false ↦ none
  ]

  abbrev behind_dash : (year : String) → Option String → Option (String × String)
  behind_dash year none = none
  behind_dash year (some s) = month_of year (digits is_digit 2 s)

  abbrev behind_year : Option (String × String) → Option (String × String)
  behind_year none = none
  behind_year (some (year, rest)) = behind_dash year (after_dash rest)

  -- DATE_PATTERN.match: the year and the month
  unfoldable pub match_date : String → Option (String × String)
  unfolding digits
  match_date date = behind_year (digits is_digit 4 date)

module _ {W : Type 0} (dates : Dates W) where
  -- The body of the `try` statement.
  abbrev read_date : String → Option (String × String) → Exec W (Option ℕ)
  read_date date (some (year, month)) = do
    dt ← dates.first_of_month (dates.int year) (dates.int month)
    pure (some dt)
  read_date date none = do dt ← dates.parse date; pure (some dt)

  -- parse_date: a date that cannot be read is None.
  unfoldable pub parse_date : Option String → Exec W (Option ℕ)
  unfolding match_date
  parse_date none = pure none
  parse_date (some date) = elim (truthy (some date)) [
    | false ↦ pure none
    | true ↦ try_except (read_date date (match_date dates.is_digit date)) (λ e. pure none)
  ]

abbrev update_all : Dict String String → Dict String String → Dict String String
update_all [] metadata = metadata
update_all ((k, v) ∷ paragraph) metadata = update_all paragraph (insert k v metadata)

abbrev merge : List (Dict String String) → Dict String String → Dict String String
merge [] metadata = metadata
merge (paragraph ∷ more) metadata = merge more (update_all paragraph metadata)

-- `metadata.get("Maintainer", "")`
abbrev maintainer_of : Option String → String
maintainer_of none = ""
maintainer_of (some maintainer) = maintainer

module _ {W : Type 0} (host : Host W) (dates : Dates W)
    (paragraphs : String → Exec W (List (Dict String String))) where
  -- parse_debian_control; `paragraphs` reads the file with Deb822.
  unfoldable pub parse_debian_control : (filepath : String) → Exec W (Dict String String)
  parse_debian_control filepath = do found ← paragraphs filepath; pure (merge found [])

  -- extract_intrinsic_metadata
  unfoldable pub extract_intrinsic_metadata : (dir_path : String) → Exec W (Dict String String)
  unfolding parse_debian_control
  extract_intrinsic_metadata dir_path = do
    found ← host.exists dir_path
    elim found [ false ↦ pure [] | true ↦ do lst ← host.listdir dir_path; of_listing lst ]
    where
      of_listing : List String → Exec W (Dict String String)
      of_listing (project_dirname ∷ []) = do
        let description_path = host.join (host.join dir_path project_dirname) "DESCRIPTION"
        found ← host.exists description_path
        elim found [ false ↦ pure [] | true ↦ parse_debian_control description_path ]
      of_listing _ = pure []

  -- build_release
  unfoldable pub build_release :
      CranInfo → (uncompressed_path : String) → Sha1Git → Exec W (Option Release)
  unfolding extract_intrinsic_metadata parse_date
  build_release p_info uncompressed_path directory_id = do
    metadata ← extract_intrinsic_metadata uncompressed_path
    date ← parse_date dates (lookup "Date" metadata)
    pure (
        some (record {
          name = p_info.base.version;
          message = some (
              join_texts (
                "Synthetic release for CRAN source package " ∷ p_info.name ∷ " version "
                ∷ p_info.base.version ∷ "\n" ∷ []));
          author =
              some (host.from_fullname (maintainer_of (lookup "Maintainer" metadata))).fullname;
          date = date;
          target = some directory_id;
          target_type = directory;
          synthetic = true;
        }))
