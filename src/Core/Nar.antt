-- ===== src/Core/Nar.antt =====
-- core/nar.py: Nar. The hash functions see one byte string, whatever pieces they are fed: the state
-- is the bytes fed so far. Printing in debug mode is left out.
pub mod Archive
pub mod Unambiguous
pub mod Ordered
pub mod Feeding
pub mod Halting
pub mod Readable
pub mod Samples
use Prim.Native.String
use Prim.Native.Char.{code}
use text.Mathlib.Text.{◌==◌ as str_eq, is_lt}
use mathlib.Core.Option
use swh_loader_core.Prelude.{
  ℕ, zero, suc, ◌+◌, ◌-◌, ◌/◌, ◌%◌, ◌^◌, String, Bool, true, false, not, Option, none, some, List,
  [], ◌∷◌, ◌++◌, map, length, replicate, keep, ltb, nat_beq, if◌then◌else◌, Dict,
}
use swh_loader_core.Effects.{overflow_error, value_error, Exec, pure, throw, modify, ◌>>=◌, ◌>>◌}

abbrev pub Bytes : Type 0
Bytes = List ℕ

-- A path on disk: what os.lstat tells of it. `executable` is `mode & 0o111 != 0`; `special` is any
-- other kind of file. The entries of a directory come in the order of iterdir().
mutual
  pub data Fso : Type 0 where
    regular : (executable : Bool) → (contents : Bytes) → Fso
    symlink : (target : String) → Fso
    directory : Entries → Fso
    special : Fso

  pub data Entries : Type 0 where
    no_entries : Entries
    entry : (name : String) → Fso → Entries → Entries

-- UTF-8 of a code point
abbrev pub utf8 : ℕ → Bytes
utf8 n =
    if ltb n 128
    then n ∷ []
    else if ltb n 2048
    then (192 + n / 64) ∷ (128 + n % 64) ∷ []
    else if ltb n 65536
    then (224 + n / 4096) ∷ (128 + (n / 64) % 64) ∷ (128 + n % 64) ∷ []
    else (240 + n / 262144) ∷ (128 + (n / 4096) % 64) ∷ (128 + (n / 64) % 64) ∷ (128 + n % 64) ∷ []

-- thing.encode("utf-8")
unfoldable pub encode : String → Bytes
encode String.[] = []
encode (String.◌∷◌ c s) = utf8 (code c) ++ encode s

-- The `width` bytes of a number, little endian.
unfoldable pub little_endian : (width : ℕ) → ℕ → Bytes
little_endian zero n = []
little_endian (suc width) n = (n % 256) ∷ little_endian width (n / 256)

-- length.to_bytes(8, byteorder="little")
unfoldable pub to_bytes : ℕ → Exec Bytes Bytes
to_bytes n = elim (ltb n (2 ^ 64)) [
  | true ↦ pure (little_endian 8 n)
  | false ↦ throw overflow_error
]

-- The number of zero bytes behind a string.
abbrev pub offset : ℕ → ℕ
offset length = let m = length % 8 in if nat_beq m 0 then 0 else 8 - m

unfoldable pub update : Bytes → Exec Bytes (Unit {0})
update chunk = modify (λ fed. fed ++ chunk)

-- str_ on the bytes of a text or of a file
unfoldable pub str_bytes : Bytes → Exec Bytes (Unit {0})
str_bytes byte_sequence = do
  blen ← to_bytes (length byte_sequence)
  update blen
  update byte_sequence
  update (replicate (offset (length byte_sequence)) 0)

abbrev pub str : String → Exec Bytes (Unit {0})
str thing = str_bytes (encode thing)

-- str_ on a list
unfoldable pub str_list : List String → Exec Bytes (Unit {0})
str_list [] = pure tt
str_list (stuff ∷ things) = do str stuff; str_list things

-- sorted(Path(fso).iterdir()): siblings compare as their names do
abbrev pub Named : Type 0
Named = String × Exec Bytes (Unit {0})

abbrev pub insert_sorted : {A : Type 0} → String × A → List (String × A) → List (String × A)
insert_sorted x [] = x ∷ []
insert_sorted x (y ∷ rest) =
    if is_lt (String.compare y.0 x.0) then y ∷ insert_sorted x rest else x ∷ y ∷ rest

abbrev pub sorted : {A : Type 0} → List (String × A) → List (String × A)
sorted [] = []
sorted (x ∷ rest) = insert_sorted x (sorted rest)

-- path_to_ignore
abbrev pub path_to_ignore : (exclude_vcs : Bool) → (vcs_type : Option String) → Option String
path_to_ignore false vcs_type = none
path_to_ignore true none = none
path_to_ignore true (some vcs_type) =
    if str_eq vcs_type "" then none else some (String.◌++◌ "." vcs_type)

abbrev pub is_kept : {A : Type 0} → Option String → String × A → Bool
is_kept none x = true
is_kept (some ignored) x = not (str_eq x.0 ignored)

unfoldable pub run_all : List Named → Exec Bytes (Unit {0})
run_all [] = pure tt
run_all (x ∷ rest) = do x.1; run_all rest

-- _serializeEntry
unfoldable pub serialize_entry : String → Exec Bytes (Unit {0}) → Exec Bytes (Unit {0})
serialize_entry name serialize_node = do
  str_list ("entry" ∷ "(" ∷ "name" ∷ name ∷ "node" ∷ [])
  serialize_node
  str ")"

-- _filter_and_serialize
unfoldable pub filter_and_serialize : Option String → List Named → Exec Bytes (Unit {0})
filter_and_serialize ignored children = run_all (keep (is_kept ignored) (sorted children))

module _ (ignored : Option String) where
  unfoldable mutual
    -- What _serialize writes between the parentheses.
    pub serialize_body : Fso → Exec Bytes (Unit {0})
    serialize_body (regular executable contents) = do
      str_list ("type" ∷ "regular" ∷ [])
      elim executable [ true ↦ str_list ("executable" ∷ "" ∷ []) | false ↦ pure tt ]
      str "contents"
      str_bytes contents
    serialize_body (symlink target) = do str_list ("type" ∷ "symlink" ∷ "target" ∷ []); str target
    serialize_body (directory entries) = do
      str_list ("type" ∷ "directory" ∷ [])
      filter_and_serialize ignored (children entries)
    serialize_body special = throw (value_error "unsupported file type")

    -- The paths of a directory, each with its _serializeEntry.
    pub children : Entries → List Named
    children no_entries = []
    children (entry name node rest) =
        (name, serialize_entry name (str "(" >> (serialize_body node >> str ")"))) ∷ children rest

  -- _serialize
  abbrev pub serialize_node : Fso → Exec Bytes (Unit {0})
  serialize_node fso = str "(" >> (serialize_body fso >> str ")")

  -- serialize
  unfoldable pub serialize : Fso → Exec Bytes (Unit {0})
  serialize fso = do str "nix-archive-1"; serialize_node fso

-- _compute_result: `digest` is hashlib's function of that name, `convert` the output format.
abbrev pub compute_result :
    (digest : String → Bytes → Bytes)
    → (convert : Bytes → String) → List String
    → Bytes
    → Dict String String
compute_result digest convert hash_names fed =
    map (λ (n : String). (n, convert (digest n fed))) hash_names
