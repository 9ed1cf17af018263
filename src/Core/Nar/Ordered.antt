-- ===== src/Core/Nar/Ordered.antt =====
-- core/nar.py: the tree that Nar serializes for a path.
use Prim.Native.String
use text.Mathlib.Text.{is_lt}
use swh_loader_core.Prelude.{
  String, true, false, Option, List, [], ◌∷◌, keep, All, All-keep, if◌then◌else◌,
}
use swh_loader_core.Core.Nar.{
  Fso, regular, symlink, directory, special, Entries, no_entries, entry, encode, insert_sorted,
  sorted, is_kept,
}
use swh_loader_core.Core.Nar.Archive.{
  Tree, Branches, no_branches, branch, IsShort, IsValid, AllValid,
}

-- The tree that a path stands for: entries in the order of their names, without the ignored one.
-- A special file has none: it stands for an empty link.
unfoldable pub to_branches : List (String × Tree) → Branches
to_branches [] = no_branches
to_branches ((name, tree) ∷ rest) = branch (encode name) tree (to_branches rest)

module _ (ignored : Option String) where
  unfoldable mutual
    pub ordered : Fso → Tree
    ordered (regular executable contents) = Tree.regular executable contents
    ordered (symlink target) = Tree.symlink (encode target)
    ordered (directory entries) =
        Tree.directory (to_branches (keep (is_kept ignored) (sorted (ordered_entries entries))))
    ordered special = Tree.symlink []

    pub ordered_entries : Entries → List (String × Tree)
    ordered_entries no_entries = []
    ordered_entries (entry name fso rest) = (name, ordered fso) ∷ ordered_entries rest

-- No special files, and no text longer than its length field can say.
abbrev mutual
  pub IsSupported : Fso → Type 0
  IsSupported (regular executable contents) = IsShort contents
  IsSupported (symlink target) = IsShort (encode target)
  IsSupported (directory entries) = AllSupported entries
  IsSupported special = ⊥

  pub AllSupported : Entries → Type 0
  AllSupported no_entries = Unit
  AllSupported (entry name fso rest) = IsShort (encode name) × (IsSupported fso × AllSupported rest)

-- The entries of a directory are valid.
abbrev IsValidEntry : String × Tree → Type 0
IsValidEntry y = IsShort (encode y.0) × IsValid y.1

All-insert_sorted :
    (y : String × Tree) (ys : List (String × Tree))
    → IsValidEntry y
    → All IsValidEntry ys
    → All IsValidEntry (insert_sorted y ys)
All-insert_sorted y [] h hs = (h, tt)
All-insert_sorted y (v ∷ ys) h (hv, hs) =
    elim (is_lt (String.compare v.0 y.0))
      as (λ b. All IsValidEntry (if b then v ∷ insert_sorted y ys else y ∷ v ∷ ys)) [
        | true ↦ (hv, All-insert_sorted y ys h hs)
        | false ↦ (h, (hv, hs))
      ]

All-sorted : (ys : List (String × Tree)) → All IsValidEntry ys → All IsValidEntry (sorted ys)
All-sorted [] hs = tt
All-sorted (y ∷ ys) (h, hs) = All-insert_sorted y (sorted ys) h (All-sorted ys hs)

to_branches-AllValid : (ys : List (String × Tree)) → All IsValidEntry ys → AllValid (to_branches ys)
unfolding to_branches
to_branches-AllValid [] hs = tt
to_branches-AllValid (y ∷ ys) (h, hs) = (h.0, (h.1, to_branches-AllValid ys hs))

module _ (ignored : Option String) where
  mutual
    unfolding ordered

    pub ordered-IsValid : (fso : Fso) → IsSupported fso → IsValid (ordered ignored fso)
    ordered-IsValid (regular executable contents) h = h
    ordered-IsValid (symlink target) h = h
    ordered-IsValid (directory entries) h =
        to_branches-AllValid _ (All-keep _ _ _ (All-sorted _ (ordered_entries-All entries h)))
    ordered-IsValid special h = absurd h

    ordered_entries-All :
        (entries : Entries)
        → AllSupported entries
        → All IsValidEntry (ordered_entries ignored entries)
    ordered_entries-All no_entries h = tt
    ordered_entries-All (entry name fso rest) (hn, (hf, hs)) =
        ((hn, ordered-IsValid fso hf), ordered_entries-All rest hs)
