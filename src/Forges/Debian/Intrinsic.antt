-- ===== src/Forges/Debian/Intrinsic.antt =====
-- package/debian/loader.py: the metadata in a source package. The parsers of python-debian and the
-- splitting of the Uploaders field by a regular expression are parameters.
use swh_loader_core.Prelude.{
  String, Option, none, some, List, [], ◌∷◌, ◌++◌, Dict, lookup, string_eq, map, drop,
}
use swh_loader_core.Effects.{Exec, pure, throw, assertion_error, ◌>>=◌}
use swh_loader_core.Core.Nar.{Bytes}
use swh_loader_core.Forges.Json.{present, each}
use swh_loader_core.Forges.Person.{Person}
use swh_loader_core.Forges.Debian.{DebianInfo}

-- A block of a changelog: its package and its version.
pub record ChangelogBlock : Type 0 where
  pub package_name : Option String
  pub raw_version : Option String

-- debian.changelog.Changelog
pub record Changelog : Type 0 where
  pub author : String
  pub date : String
  pub blocks : List ChangelogBlock

-- debian.deb822.Dsc, as far as it is read
abbrev pub Dsc : Type 0
Dsc = Dict String String

-- DebianPackageChangelog
pub record PackageChangelog : Type 0 where
  pub person : Dict String String
  pub date : String
  pub history : List (String × String)

-- IntrinsicPackageMetadata
pub record IntrinsicMetadata : Type 0 where
  pub name : String
  pub version : String
  pub changelog : PackageChangelog
  pub maintainers : List (Dict String String)

pub record Parsers (W : Type 0) : Type 0 where
  -- open(path, "rb").read()
  pub read_file : String → Exec W Bytes
  pub parse_dsc : Bytes → Exec W Dsc
  -- none for a UnicodeDecodeError
  pub parse_changelog : Bytes → Exec W (Option Changelog)
  -- with the encoding iso-8859-15
  pub parse_changelog_iso : Bytes → Exec W Changelog
  -- parse_date(date).isoformat()
  pub isoformat : String → Exec W String
  -- UPLOADERS_SPLIT.split
  pub split_uploaders : String → List String
  -- Person.from_fullname and Person.from_dict
  pub from_fullname : String → Person
  pub from_dict : Dict String String → Person
  pub join : String → String → String

-- `for k, v in person.to_dict().items() if v is not None`
abbrev known : String → Option String → Dict String String
known key none = []
known key (some value) = (key, value) ∷ []

module _ {W : Type 0} (parsers : Parsers W) where
  -- `assert block.package is not None and block._raw_version is not None`
  unfoldable pub history_entry : ChangelogBlock → Exec W (String × String)
  history_entry block = entry block.package_name block.raw_version
    where
      entry : Option String → Option String → Exec W (String × String)
      entry (some name) (some version) = pure (name, version)
      entry _ _ = throw assertion_error

  -- The changelog, with the encoding that fits.
  unfoldable pub decode_changelog : Bytes → Exec W Changelog
  decode_changelog content = do
    parsed ← parsers.parse_changelog content
    elim parsed [ some found ↦ pure found | none ↦ parsers.parse_changelog_iso content ]

  -- parsed_dsc.get("Uploaders", "")
  abbrev or_empty : Option String → String
  or_empty none = ""
  or_empty (some uploaders) = uploaders

  -- uid_to_person
  unfoldable pub uid_to_person : (uid : String) → Dict String String
  uid_to_person uid =
      let person = parsers.from_fullname uid in
      ("fullname", person.fullname) ∷ known "name" person.name ++ known "email" person.email

  -- prepare_person
  unfoldable pub prepare_person : Dict String String → Person
  prepare_person person = parsers.from_dict person

  -- get_intrinsic_package_metadata
  unfoldable pub get_intrinsic_package_metadata :
      DebianInfo → (dsc_path extracted_path : String) → Exec W IntrinsicMetadata
  unfolding decode_changelog history_entry uid_to_person
  get_intrinsic_package_metadata p_info dsc_path extracted_path = do
    dsc ← parsers.read_file dsc_path
    parsed_dsc ← parsers.parse_dsc dsc
    content ← parsers.read_file (parsers.join extracted_path "debian/changelog")
    parsed_changelog ← decode_changelog content
    history ← each history_entry parsed_changelog.blocks
    date ← parsers.isoformat parsed_changelog.date
    maintainer ← present (lookup "Maintainer" parsed_dsc)
    pure (record {
      name = p_info.name;
      version = p_info.intrinsic_version;
      changelog = record {
        person = uid_to_person parsed_changelog.author;
        date = date;
        history = drop 1 history;
      };
      maintainers =
          uid_to_person maintainer
          ∷ map uid_to_person (parsers.split_uploaders (or_empty (lookup "Uploaders" parsed_dsc)));
    })
