-- ===== src/Core/Utils/Download.antt =====
-- core/utils.py: download. The response is what urllib, `open` or requests give for the URL.
pub mod Verified
use swh_loader_core.Prelude.{
  ℕ, String, Bool, true, false, ◌≡◌, Option, none, some, List, [], ◌∷◌, ◌++◌, map, is_empty,
  or_else, nat_beq, keep, not, if◌then◌else◌, lookup, Dict, to_set, string_eq, ◌==◌,
}
use swh_loader_core.Effects.{
  Result, ok, raise, value_error, key_error, Exec, pure, throw, ◌>>=◌, ◌>>◌,
}
use swh_loader_core.Model.{truthy}
use swh_loader_core.Core.Nar.{Bytes}

-- A digest of MultiHash: hexadecimal text, or a number for "length".
pub data Digest : Type 0 where
  hex : String → Digest
  size : ℕ → Digest

-- `actual_digest == expected_digest`
abbrev pub digest_beq : Digest → Digest → Bool
digest_beq (hex a) (hex b) = a == b
digest_beq (size a) (size b) = nat_beq a b
digest_beq _ _ = false

pub record Response : Type 0 where
  -- the URL after redirections
  pub url : String
  -- what _content_disposition_filename reads off the headers
  pub disposition : Option String
  pub chunks : List Bytes

-- The network, the disk and the hash functions.
pub record Web (W : Type 0) : Type 0 where
  -- urlopen, open or requests.get, and raise_for_status; the headers to send beyond the default
  pub get : (url : String) → (extra_request_headers : Dict String String) → Exec W Response
  pub write : (path : String) → Bytes → Exec W (Unit {0})
  pub digest : (algo : String) → Bytes → Digest
  -- os.path.basename(urlsplit(url).path)
  pub url_basename : String → String
  -- os.path.join
  pub join : String → String → String

pub record Extrinsic : Type 0 where
  pub length : Option Digest
  pub filename : String
  pub checksums : Dict String Digest
  pub url : String

-- itertools.takewhile(bool, chunks), joined
unfoldable pub response_data : List Bytes → Bytes
response_data [] = []
response_data (chunk ∷ chunks) =
    let rest = response_data chunks in if is_empty chunk then [] else chunk ++ rest

-- `filename if filename else ...`
abbrev pub file_name : Option String → String → String
file_name none base = base
file_name (some name) base = if truthy (some name) then name else base

-- DOWNLOAD_HASHES | set(hashes.keys())
abbrev pub hash_names : Dict String Digest → List String
hash_names hashes =
    to_set ("sha1" ∷ "sha256" ∷ "length" ∷ map (λ (h : String × Digest). h.0) hashes)

module _ {W : Type 0} (web : Web W) where
  -- MultiHash.hexdigest
  abbrev pub multi_hash : List String → Bytes → Dict String Digest
  multi_hash names content = map (λ (n : String). (n, web.digest n content)) names

  abbrev pub compare_digest : Option Digest → Digest → Result (Unit {0}) → Result (Unit {0})
  compare_digest none expected rest = raise key_error
  compare_digest (some actual) expected rest =
      if digest_beq actual expected then rest else raise (value_error "Checksum mismatched")

  -- `for algo_hash in hashes.keys()`
  unfoldable pub check_hashes : Dict String Digest → Dict String Digest → Result (Unit {0})
  check_hashes actual_hashes [] = ok tt
  check_hashes actual_hashes ((algo_hash, expected_digest) ∷ hashes) =
      let rest = check_hashes actual_hashes hashes in
      compare_digest (lookup algo_hash actual_hashes) expected_digest rest

  abbrev pub download :
      (url dest : String) (hashes : Dict String Digest) (filename : Option String)
      (extra_request_headers : Dict String String)
      → Exec W (String × Extrinsic)
  download url dest hashes filename extra_request_headers = do
    response ← web.get url extra_request_headers
    let name = file_name (or_else filename response.disposition) (web.url_basename response.url)
    let filepath = web.join dest name
    let content = response_data response.chunks
    web.write filepath content
    let computed_hashes = multi_hash (hash_names hashes) content
    (λ w. (check_hashes computed_hashes hashes, w))
    pure (
      filepath,
      record {
        length = lookup "length" computed_hashes;
        filename = name;
        checksums = keep (λ (h : String × Digest). not (h.0 == "length")) computed_hashes;
        url = response.url;
      },
    )
