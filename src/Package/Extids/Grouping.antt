-- ===== src/Package/Extids/Grouping.antt =====
-- package/loader.py: what _get_known_extids asks of the storage and how it files the answers.
use swh_loader_core.Prelude.{
  ℕ, String, ◌≡◌, sym, ◌∙◌, ap, Option, none, some, List, [], ◌∷◌, ◌++◌, Dict, entries, append_to,
  entries-append_to, Eq, string_eq, pair_eq, if◌then◌else◌, nat_eq, ◌==◌, Bool-cases, inl, inr,
}
use mathlib.Core.List.{append_assoc, append-nil}
use swh_loader_core.Model.{Swhid, PartialExtId, partial_extid_eq, ExtId}
use swh_loader_core.Package.Extids.{Grouped, Known, group_extids, known_key, collect}

-- The extids of a type and version, in the order of the packages.
abbrev pub extids_of : String × ℕ → List (Option PartialExtId) → List String
extids_of k [] = []
extids_of k (none ∷ rest) = extids_of k rest
extids_of k (some e ∷ rest) =
    let others = extids_of k rest in
    if (e.extid_type, e.extid_version) == k then e.extid ∷ others else others

-- The targets of the answers that are filed under a key, in the order of the answers.
abbrev pub targets_of : ℕ → PartialExtId → List (Option ExtId) → List Swhid
targets_of v k [] = []
targets_of v k (none ∷ rest) = targets_of v k rest
targets_of v k (some e ∷ rest) =
    let others = targets_of v k rest in if known_key v e == k then e.target ∷ others else others

module _ {K V : Type 0} ⦃e : Eq K⦄ where
  -- One entry more, and then the rest.
  append_to_then :
      (key k : K) (v : V) (d : Dict K (List V)) (rest : List V)
      → entries k (append_to key v d) ++ rest ≡ entries k d ++ (if key == k then v ∷ rest else rest)
  append_to_then key k v d rest = elim (Bool-cases (key == k)) [
    | inl same ↦ rw (entries-append_to key k v d) (
        rw same (
          append_assoc (entries key d) (v ∷ []) rest
          ∙ ap (λ j. entries j d ++ v ∷ rest) ((e.beq_iff key k).0 same)))
    | inr other ↦ rw (entries-append_to key k v d) (rw other)
  ]

-- Each type and version is filed with the extids of the packages that have it, in their order.
pub entries-group_extids :
    (k : String × ℕ) (es : List (Option PartialExtId)) (g : Grouped)
    → entries k (group_extids es g) ≡ entries k g ++ extids_of k es
unfolding group_extids
entries-group_extids k [] g = sym (append-nil (entries k g))
entries-group_extids k (none ∷ rest) g = entries-group_extids k rest g
entries-group_extids k (some e ∷ rest) g =
    entries-group_extids k rest (append_to (e.extid_type, e.extid_version) e.extid g)
    ∙ append_to_then (e.extid_type, e.extid_version) k e.extid g (extids_of k rest)

-- The answers of the storage are filed behind what is known, under their own type and extid and the
-- version that was asked for, in their order; no answer is lost and no other key changes.
pub entries-collect :
    (v : ℕ) (k : PartialExtId) (found : List (Option ExtId)) (known : Known)
    → entries k (collect v found known) ≡ entries k known ++ targets_of v k found
unfolding collect
entries-collect v k [] known = sym (append-nil (entries k known))
entries-collect v k (none ∷ rest) known = entries-collect v k rest known
entries-collect v k (some e ∷ rest) known =
    entries-collect v k rest (append_to (known_key v e) e.target known)
    ∙ append_to_then (known_key v e) k e.target known (targets_of v k rest)
