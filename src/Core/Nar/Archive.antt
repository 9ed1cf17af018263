-- ===== src/Core/Nar/Archive.antt =====
-- core/nar.py: the format that Nar writes, as a function of an ordered tree.
use swh_loader_core.Prelude.{◌<◌, ◌^◌, String, Bool, true, false, ◌++◌, length, replicate}
use swh_loader_core.Core.Nar.{Bytes, encode, little_endian, offset}

-- An ordered tree. Names and targets are bytes.
mutual
  pub data Tree : Type 0 where
    regular : (executable : Bool) → (contents : Bytes) → Tree
    symlink : (target : Bytes) → Tree
    directory : Branches → Tree

  pub data Branches : Type 0 where
    no_branches : Branches
    branch : (name : Bytes) → Tree → Branches → Branches

-- A string of the format, in front of the rest: its length, its bytes, zeros up to a multiple of 8.
unfoldable pub packed : Bytes → Bytes → Bytes
packed b rest = little_endian 8 (length b) ++ (b ++ (replicate (offset (length b)) 0 ++ rest))

abbrev pub word : String → Bytes → Bytes
word s rest = packed (encode s) rest

unfoldable pub mark : Bool → Bytes → Bytes
mark true rest = word "executable" (word "" rest)
mark false rest = rest

-- The archive of a tree, in front of the rest.
unfoldable mutual
  pub body : Tree → Bytes → Bytes
  body (regular executable contents) rest =
      word "type" (word "regular" (mark executable (word "contents" (packed contents rest))))
  body (symlink target) rest = word "type" (word "symlink" (word "target" (packed target rest)))
  body (directory branches) rest = word "type" (word "directory" (bodies branches rest))

  pub bodies : Branches → Bytes → Bytes
  bodies no_branches rest = rest
  bodies (branch name tree more) rest = word "entry" (
      word "(" (
        word "name" (
          packed name
            (word "node" (word "(" (body tree (word ")" (word ")" (bodies more rest)))))))))

abbrev pub node : Tree → Bytes → Bytes
node tree rest = word "(" (body tree (word ")" rest))

abbrev pub archive : Tree → Bytes → Bytes
archive tree rest = word "nix-archive-1" (node tree rest)

-- A length that eight bytes hold.
abbrev pub IsShort : Bytes → Type 0
IsShort b = length b < 2 ^ 64

-- Every string in a tree is short.
abbrev mutual
  pub IsValid : Tree → Type 0
  IsValid (regular executable contents) = IsShort contents
  IsValid (symlink target) = IsShort target
  IsValid (directory branches) = AllValid branches

  pub AllValid : Branches → Type 0
  AllValid no_branches = Unit
  AllValid (branch name tree more) = IsShort name × (IsValid tree × AllValid more)
