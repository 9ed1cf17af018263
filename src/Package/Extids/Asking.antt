-- ===== src/Package/Extids/Asking.antt =====
-- package/loader.py: _get_known_extids as a whole, for a storage that answers.
use swh_loader_core.Prelude.{
  ℕ, String, ◌≡◌, refl, sym, ◌∙◌, ap, Bool, true, false, Option, none, some, List, [], ◌∷◌, ◌++◌,
  map, Dict, lookup, insert, lookup-insert, entries, All, Eq, string_eq, pair_eq, if◌then◌else◌,
  nat_eq, ◌==◌, Bool-cases, inl, inr, arith,
}
use mathlib.Core.List.{append_assoc, append-nil}
use swh_loader_core.Effects.{ok, effects}
use swh_loader_core.Model.{Swhid, PartialExtId, partial_extid_eq, ExtId}
use swh_loader_core.Storage.{Storage}
use swh_loader_core.Package.Info.{PackageInfo}
use swh_loader_core.Package.Extids.{
  Grouped, Known, group_extids, collect, ask_storage, get_known_extids,
}
use swh_loader_core.Package.Extids.Grouping.{
  extids_of, targets_of, entries-group_extids, entries-collect,
}

-- The targets of the answers with an extid, in their order.
abbrev pub targets_with : String → List (Option ExtId) → List Swhid
targets_with extid [] = []
targets_with extid (none ∷ rest) = targets_with extid rest
targets_with extid (some e ∷ rest) =
    let others = targets_with extid rest in
    if e.key.extid == extid then e.target ∷ others else others

abbrev pub HasType : String → Option ExtId → Type 0
HasType t none = Unit
HasType t (some e) = e.key.extid_type ≡ t

-- extid_get_from_extid answers by a function, with ExtIDs of the type asked for, and none if none is asked for.
pub record Serves {W : Type 0} (storage : Storage W)
    (find : String → List String → ℕ → List (Option ExtId)) : Type 0 where
  pub answers :
      (t : String) (es : List String) (v : ℕ) (w : W)
      → storage.extid_get_from_extid t es v w ≡ (ok (find t es v), w)
  pub typed : (t : String) (es : List String) (v : ℕ) → All (HasType t) (find t es v)
  pub nothing : (t : String) (v : ℕ) → find t [] v ≡ []

module _ {K V : Type 0} ⦃q : Eq K⦄ where
  -- No key twice.
  abbrev Unique : Dict K V → Type 0
  Unique [] = Unit
  Unique ((j, es) ∷ d) = (lookup j d ≡ none) × Unique d

  Unique-insert : (k : K) (v : V) (d : Dict K V) → Unique d → Unique (insert k v d)
  Unique-insert k v [] h = (refl, tt)
  Unique-insert k v ((j, w) ∷ d) (h, u) = elim (Bool-cases (j == k)) [
    | inl e ↦ rw e (h, u)
    | inr e ↦ rw e (
      lookup-insert k j v d ∙ ap (λ (b : Bool). if b then some v else lookup j d) (flipped e) ∙ h,
      Unique-insert k v d u,
    )
  ]
    where
      flipped : (j == k) ≡ false → (k == j) ≡ false
      flipped e = ground (arith, q.beq_iff k j, q.beq_iff j k)

Unique-group_extids :
    (es : List (Option PartialExtId)) (g : Grouped) → Unique g → Unique (group_extids es g)
unfolding group_extids
Unique-group_extids [] g h = h
Unique-group_extids (none ∷ es) g h = Unique-group_extids es g h
Unique-group_extids (some e ∷ es) g h = Unique-group_extids es _ (Unique-insert _ _ g h)

abbrev kind : PartialExtId → String × ℕ
kind k = (k.extid_type, k.extid_version)

targets_of_lem :
    (t : String) (v : ℕ) (k : PartialExtId) (found : List (Option ExtId))
    → All (HasType t) found
    → targets_of v k found ≡ (if (t, v) == kind k then targets_with k.extid found else [])
targets_of_lem t v k [] h = ground arith
targets_of_lem t v k (none ∷ found) (h, hs) = targets_of_lem t v k found hs
targets_of_lem t v k (some e ∷ found) (h, hs) = ground (arith, h, targets_of_lem t v k found hs)

module _ (find : String → List String → ℕ → List (Option ExtId)) where
  collected : Grouped → Known → Known
  collected [] known = known
  collected (((t, v), es) ∷ g) known = collected g (collect v (find t es v) known)

  -- What the questions add under a key.
  added : PartialExtId → Grouped → List Swhid
  added k [] = []
  added k (((t, v), es) ∷ g) = targets_of v k (find t es v) ++ added k g

  entries-collected :
      (k : PartialExtId) (g : Grouped) (known : Known)
      → entries k (collected g known) ≡ entries k known ++ added k g
  unfolding collected added
  entries-collected k [] known = sym (append-nil (entries k known))
  entries-collected k (((t, v), es) ∷ g) known =
      entries-collected k g (collect v (find t es v) known)
      ∙ (ap (λ l. l ++ added k g) (entries-collect v k (find t es v) known)
          ∙ append_assoc (entries k known) (targets_of v k (find t es v)) (added k g))

  module _ {W : Type 0} (storage : Storage W) (serves : Serves storage find) where
    ask_storage-collected :
        (g : Grouped) (known : Known) (w : W)
        → ask_storage storage g known w ≡ (ok (collected g known), w)
    unfolding ask_storage collected effects
    ask_storage-collected [] known w = refl
    ask_storage-collected (((t, v), es) ∷ g) known w =
        rw (serves.answers t es v w) (ask_storage-collected g (collect v (find t es v) known) w)

    added-other :
        (k : PartialExtId) (t : String) (v : ℕ) (es : List String)
        → ((t, v) == kind k) ≡ false
        → targets_of v k (find t es v) ≡ []
    added-other k t v es e =
        rw (targets_of_lem t v k (find t es v) (serves.typed t es v)) (rw e refl)

    added-absent : (k : PartialExtId) (g : Grouped) → lookup (kind k) g ≡ none → added k g ≡ []
    unfolding added
    added-absent k [] h = refl
    added-absent k (((t, v), es) ∷ g) h = elim (Bool-cases ((t, v) == kind k)) [
      | inl e ↦
          absurd (cc (sym (ap (λ (b : Bool). if b then some es else lookup (kind k) g) e) ∙ h))
      | inr e ↦ rw (added-other k t v es e) (
          added-absent k g
            (sym (ap (λ (b : Bool). if b then some es else lookup (kind k) g) e) ∙ h))
    ]

    added_lem :
        (k : PartialExtId) (g : Grouped)
        → Unique g
        → added k g ≡ targets_with k.extid (find k.extid_type (entries (kind k) g) k.extid_version)
    unfolding added
    added_lem k [] h = rw (serves.nothing k.extid_type k.extid_version) refl
    added_lem k (((t, v), es) ∷ g) (h, hs) = elim (Bool-cases ((t, v) == kind k)) [
      | inl e ↦ here e ((pair_eq.beq_iff (t, v) (kind k)).0 e)
      | inr e ↦
          ap (λ l. l ++ added k g) (added-other k t v es e)
          ∙ (added_lem k g hs
              ∙ ap
                  (λ (b : Bool). targets_with k.extid (
                    find k.extid_type
                      (elim (if b then some es else lookup (kind k) g) [ none ↦ [] | some vs ↦ vs ])
                      k.extid_version))
                  (sym e))
    ]
      where
        here :
            ((t, v) == kind k) ≡ true
            → (t, v) ≡ kind k
            → targets_of v k (find t es v) ++ added k g
              ≡ targets_with k.extid
                  (find k.extid_type (entries (kind k) (((t, v), es) ∷ g)) k.extid_version)
        here e same =
            ap (λ l. targets_of v k (find t es v) ++ l)
              (added-absent k g (ap (λ j. lookup j g) (sym same) ∙ h))
            ∙ (append-nil _
                ∙ (targets_of_lem t v k (find t es v) (serves.typed t es v)
                    ∙ (ap (λ (b : Bool). if b then targets_with k.extid (find t es v) else []) e
                        ∙ (ap (λ (j : String × ℕ). targets_with k.extid (find j.0 es j.1)) same
                            ∙ ap
                                (λ (b : Bool). targets_with k.extid (
                                  find k.extid_type
                                    (elim (if b then some es else lookup (kind k) g) [
                                      | none ↦ []
                                      | some vs ↦ vs
                                    ])
                                    k.extid_version))
                                (sym e)))))

    -- For a storage whose extid_get_from_extid answers by a function `find`, with ExtIDs of the type asked
    -- for and with none where none is asked for, _get_known_extids returns, and leaves the world as it is.
    -- Under a type, version and extid it has filed just the targets of the ExtIDs with that extid, in their
    -- order, in the one answer to that type, that version and the extids of all the packages of that type and
    -- version, in the order of the packages.
    pub get_known_extids_lem :
        (extid : PackageInfo → Option PartialExtId) (packages_info : List PackageInfo) (w : W)
        → (known : Known) × ((get_known_extids storage extid packages_info w ≡ (ok known, w))
            × ((k : PartialExtId)
                → entries k known
                  ≡ targets_with k.extid (
                      find k.extid_type
                        (extids_of (k.extid_type, k.extid_version) (map extid packages_info))
                        k.extid_version)))
    unfolding get_known_extids
    get_known_extids_lem extid packages_info w =
        let es = map extid packages_info in
        let g = group_extids es [] in
        (
          collected g [],
          (
            ask_storage-collected g [] w,
            λ k.
                entries-collected k g []
                ∙ (added_lem k g (Unique-group_extids es [] tt)
                    ∙ ap (λ l. targets_with k.extid (find k.extid_type l k.extid_version))
                        (entries-group_extids (kind k) es [])),
          ),
        )
