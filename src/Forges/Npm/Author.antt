-- ===== src/Forges/Npm/Author.antt =====
-- package/npm/loader.py: the author in a package.json file, and reading that file.
use Prim.Native.String
use swh_loader_core.Prelude.{
  String, Bool, true, false, Option, none, some, [], ◌∷◌, Dict, lookup, drop, string_eq, nat_beq,
  ◌&&◌, ◌==◌,
}
use swh_loader_core.Effects.{Exec, Result, ok, raise, no_fuel, pure, throw, other}
use swh_loader_core.Core.Nar.{Bytes}
use swh_loader_core.Forges.Json.{
  Json, null, str, list, dict, no_items, item_and, Entries, no_entries, entry_and, pairs,
  type_error,
}
use swh_loader_core.Forges.Person.{Person, empty_author}
use swh_loader_core.Forges.Host.{Host}

-- f"{head} <{email}>"
abbrev with_email : (text : Json → String) → Result String → Option Json → Result String
with_email text (ok head) none = ok head
with_email text (ok head) (some null) = ok head
with_email text (ok head) (some email) =
    ok (String.◌++◌ head (String.◌++◌ " <" (String.◌++◌ (text email) ">")))
with_email text failed email = failed

-- _author_str on a value; a value that is no text in the end is a TypeError of `+=` or an AttributeError
-- of `encode`, which is one exception here.
unfoldable mutual
  pub author_str : (text : Json → String) → Json → Result String
  author_str text (dict ps) = with_email text (name_part text ps) (lookup "email" (pairs ps))
  author_str text (list no_items) = ok ""
  author_str text (list (item_and v vs)) = author_str text v
  author_str text (str s) = ok s
  author_str text _ = raise type_error

  -- What `author_data.get("name")` adds.
  name_part : (text : Json → String) → Entries → Result String
  name_part text no_entries = ok ""
  name_part text (entry_and k v ps) =
      let here = name_str text v in
      let later = name_part text ps in elim (k == "name") [ true ↦ here | false ↦ later ]

  -- A name that is a text, or a list whose head is an author again.
  name_str : (text : Json → String) → Json → Result String
  name_str text (str s) = ok s
  name_str text (list (item_and v vs)) = author_str text v
  name_str text _ = ok ""

module _ {W : Type 0} (host : Host W) where
  -- The value of the first key that is there.
  unfoldable pub author_of : Json → Exec W Person
  author_of null w = (ok (empty_author host.from_fullname), w)
  author_of v w = (on_name (author_str host.text v), w)
    where
      on_name : Result String → Result Person
      on_name (ok name) = ok (host.from_fullname name)
      on_name (raise e) = raise e
      on_name no_fuel = no_fuel

  -- extract_npm_package_author
  unfoldable pub extract_npm_package_author : (package_json : Dict String Json) → Exec W Person
  unfolding author_of
  extract_npm_package_author package_json = elim (lookup "author" package_json) [
    | some author_data ↦ author_of author_data
    | none ↦ elim (lookup "authors" package_json) [
      | some author_data ↦ author_of author_data
      | none ↦ pure (empty_author host.from_fullname)
    ]
  ]

-- What load_json uses of Python, of json and of chardet.
pub record Decoder : Type 0 where
  -- bytes.decode("utf-8")
  pub decode_utf8 : Bytes → Option String
  -- chardet.detect(json_bytes)["encoding"]
  pub detect : Bytes → Option String
  -- bytes.decode(encoding, "replace")
  pub decode_replace : Bytes → (encoding : String) → String
  -- json.loads; none for a JSONDecodeError
  pub parse : String → Option Json

abbrev starts_with : Bytes → Bytes → Bool
starts_with s [] = true
starts_with [] (b ∷ bom) = false
starts_with (c ∷ s) (b ∷ bom) = nat_beq c b && starts_with s bom

-- _lstrip_bom, with BOM_UTF8
unfoldable pub lstrip_bom : Bytes → Bytes
lstrip_bom s = elim (starts_with s (239 ∷ 187 ∷ 191 ∷ [])) [ true ↦ drop 3 s | false ↦ s ]

-- json_str, if it is assigned
unfoldable pub json_text : Decoder → Bytes → Option String
unfolding lstrip_bom
json_text decoder json_bytes = elim (decoder.decode_utf8 (lstrip_bom json_bytes)) [
  | some json_str ↦ some json_str
  | none ↦ elim (decoder.detect json_bytes) [
    | none ↦ none
    | some encoding ↦ elim (encoding == "") [
      | true ↦ none
      | false ↦ some (decoder.decode_replace json_bytes encoding)
    ]
  ]
]

abbrev or_empty : Option Json → Json
or_empty none = dict no_entries
or_empty (some json_data) = json_data

-- load_json; json_str without a value is an UnboundLocalError.
unfoldable pub load_json : {W : Type 0} → Decoder → Bytes → Exec W Json
unfolding json_text
load_json decoder json_bytes = elim (json_text decoder json_bytes) [
  | none ↦ throw (other "UnboundLocalError")
  | some json_str ↦ pure (or_empty (decoder.parse json_str))
]
