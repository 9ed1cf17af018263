-- ===== src/Package/Extids/Resolution.antt =====
-- package/loader.py: what resolve_object_from_extids can return.
use mathlib.Core.Path.{subst}
use swh_loader_core.Prelude.{
  ◌≡◌, refl, sym, ap, Bool, true, false, not, ◌&&◌, Option, none, some, List, [], ◌∷◌, map, keep,
  contains, add, ◌⊎◌, Within, Within-keep, Within→contains, entries, string_eq, arith, inl, inr,
  Bool-cases, Option-cases, is_empty,
}
use swh_loader_core.Effects.{Exec, Result, ok, raise, no_fuel, continue, effects}
use swh_loader_core.Effects.Hoare.{Post}
use swh_loader_core.Model.{Sha1Git, Swhid, swhid_eq, PartialExtId, partial_extid_eq}
use swh_loader_core.Storage.{Storage}
use swh_loader_core.Package.Info.{PackageInfo}
use swh_loader_core.Package.Extids.{
  Known, whitelisted, without_missing, is_release, is_revision, is_loadable, the_only,
  select_extid_target, resolve_revision, resolve_targets, resolve_scanned, has_other,
  resolve_object_from_extids,
}

-- A target that is known under the extid, that the last snapshot has, and that is a release or a
-- revision.
pub record IsUsable (whitelist : List Sha1Git) (targets : List Swhid) (t : Swhid) : Type 0 where
  pub known : Within t targets
  pub in_snapshot : contains whitelist t.object_id ≡ true
  pub loadable : is_loadable t ≡ true

Within-add_inv : (a b : Swhid) (xs : List Swhid) → Within a (add b xs) → (a ≡ b) ⊎ Within a xs
Within-add_inv a b xs w = ground arith

and_parts : (a b : Bool) → (a && b) ≡ true → (a ≡ true) × (b ≡ true)
and_parts a b h = ground arith

module _ (whitelist : List Sha1Git) where
  IsUsable-here :
      (x : Swhid) (rest : List Swhid)
      → (contains whitelist x.object_id && is_loadable x) ≡ true
      → IsUsable whitelist (x ∷ rest) x
  IsUsable-here x rest h =
      let parts = and_parts (contains whitelist x.object_id) (is_loadable x) h in
      record { known = inl refl; in_snapshot = parts.0; loadable = parts.1 }

  IsUsable-later :
      (x t : Swhid) (rest : List Swhid)
      → IsUsable whitelist rest t
      → IsUsable whitelist (x ∷ rest) t
  IsUsable-later x t rest u = record {
    known = inr u.known;
    in_snapshot = u.in_snapshot;
    loadable = u.loadable;
  }

  added :
      (x : Swhid) (rest : List Swhid)
      → (contains whitelist x.object_id && is_loadable x) ≡ true
      → whitelisted whitelist (x ∷ rest) ≡ add x (whitelisted whitelist rest)
  unfolding whitelisted
  added x rest e = rw (e, whitelisted)

  skipped :
      (x : Swhid) (rest : List Swhid)
      → (contains whitelist x.object_id && is_loadable x) ≡ false
      → whitelisted whitelist (x ∷ rest) ≡ whitelisted whitelist rest
  unfolding whitelisted
  skipped x rest e = rw (e, whitelisted)

  whitelisted-IsUsable :
      (targets : List Swhid) (t : Swhid)
      → Within t (whitelisted whitelist targets)
      → IsUsable whitelist targets t
  unfolding whitelisted
  whitelisted-IsUsable [] t w = elim w [ ]
  whitelisted-IsUsable (x ∷ rest) t w =
      elim (Bool-cases (contains whitelist x.object_id && is_loadable x)) [
        | inl e ↦
            elim (Within-add_inv t x (whitelisted whitelist rest)
              (subst (Within t) (added x rest e) w)) [
                | inl same ↦
                    subst (IsUsable whitelist (x ∷ rest)) (sym same) (IsUsable-here x rest e)
                | inr later ↦ IsUsable-later x t rest (whitelisted-IsUsable rest t later)
              ]
        | inr e ↦
            IsUsable-later x t rest
              (whitelisted-IsUsable rest t (subst (Within t) (skipped x rest e) w))
      ]

-- What a search may answer: nothing, or one of `targets` that `P` holds for.
abbrev pub Answers : (Swhid → Type 0) → Option Swhid → Type 0
Answers P none = Unit
Answers P (some t) = P t

-- `select_extid_target` chooses among the targets that it is given.
abbrev pub Chooses : {W : Type 0} → (PackageInfo → List Swhid → Exec W (Option Swhid)) → Type 0
Chooses {W} select =
    (p_info : PackageInfo) (targets : List Swhid) (w : W)
    → Post (λ r _. Answers (λ t. Within t targets) r) (λ _ _. Unit) (select p_info targets w)

-- The base class's choice is such a choice.
pub select_extid_target-Chooses : {W : Type 0} → Chooses (select_extid_target {W = W})
unfolding select_extid_target effects
select_extid_target-Chooses p_info [] w = tt
select_extid_target-Chooses p_info (t ∷ []) w = inl refl
select_extid_target-Chooses p_info (t ∷ u ∷ rest) w = tt

-- A release that the archive no longer has is not usable.
abbrev pub IsPresent : (Sha1Git → Bool) → Swhid → Type 0
IsPresent gone t = is_release t ≡ true → gone t.object_id ≡ false

Within-map_id :
    (t : Swhid) (xs : List Swhid)
    → Within t xs
    → Within t.object_id (map (λ (x : Swhid). x.object_id) xs)
Within-map_id t [] w = elim w [ ]
Within-map_id t (x ∷ xs) (inl e) = inl (ap (λ (y : Swhid). y.object_id) e)
Within-map_id t (x ∷ xs) (inr w) = inr (Within-map_id t xs w)

Within-keep_of :
    (p : Sha1Git → Bool) (a : Sha1Git) (xs : List Sha1Git)
    → Within a xs
    → p a ≡ true
    → Within a (keep p xs)
Within-keep_of p a [] w h = elim w [ ]
Within-keep_of p a (x ∷ xs) (inl e) h = rw (← e) (rw (h, keep) (inl refl))
Within-keep_of p a (x ∷ xs) (inr w) h = ground (arith, Within-keep_of p a xs w h)

-- What is left when the missing ones are taken off was among the targets, and is not gone.
present :
    (gone : Sha1Git → Bool) (targets : List Swhid) (t : Swhid)
    → Within t (without_missing (keep gone (map (λ (x : Swhid). x.object_id) targets)) targets)
    → Within t targets × (gone t.object_id ≡ false)
unfolding without_missing
present gone targets t w =
    let ids = map (λ (x : Swhid). x.object_id) targets in
    let (inside, kept) =
      Within-keep (λ x. not (contains (keep gone ids) x.object_id)) t targets w in
    elim (Bool-cases (gone t.object_id)) [
      | inl g ↦
          let found =
            Within→contains (keep gone ids) t.object_id
              (Within-keep_of gone t.object_id ids (Within-map_id t targets inside) g) in
          absurd (cc (rw found at kept))
      | inr g ↦ (inside, g)
    ]

revision-IsPresent : (gone : Sha1Git → Bool) (t : Swhid) → is_release t ≡ false → IsPresent gone t
revision-IsPresent gone t h r = absurd (cc)

module _ {W : Type 0} (storage : Storage W)
    (select : PackageInfo → List Swhid → Exec W (Option Swhid)) (chooses : Chooses select)
    (gone : Sha1Git → Bool)
    (answers : (ids : List Sha1Git) (w : W)
      → storage.release_missing ids w ≡ (ok (keep gone ids), w)) where
  -- A revision is returned only as the single target.
  the_only-Answers :
      (targets : List Swhid) (w : W)
      → is_empty (keep is_revision targets) ≡ false
      → Post
          (λ r _. Answers (λ t. Within t targets × IsPresent gone t) r)
          (λ _ _. Unit)
          (the_only targets w)
  unfolding effects
  the_only-Answers [] w h = tt
  the_only-Answers (t ∷ []) w h = (inl refl, revision-IsPresent gone t (ground arith))
  the_only-Answers (t ∷ u ∷ rest) w h = tt

  resolve_revision-Answers :
      (targets : List Swhid) (selected : Option Swhid) (w : W)
      → Answers (λ t. Within t targets × IsPresent gone t) selected
      → Post
          (λ r _. Answers (λ t. Within t targets × IsPresent gone t) r)
          (λ _ _. Unit)
          (resolve_revision storage select targets selected w)
  unfolding resolve_revision effects
  resolve_revision-Answers targets (some t) w a = a
  resolve_revision-Answers targets none w a =
      elim (Bool-cases (is_empty (keep is_revision targets))) [
        | inl e ↦ rw (e, resolve_revision) tt
        | inr e ↦ rw (e, resolve_revision) (the_only-Answers targets w e)
      ]

  after_select :
      (targets : List Swhid) (r : Result (Option Swhid) × W)
      → Post (λ r _. Answers (λ t. Within t targets × IsPresent gone t) r) (λ _ _. Unit) r
      → Post
          (λ r _. Answers (λ t. Within t targets × IsPresent gone t) r)
          (λ _ _. Unit)
          (continue (resolve_revision storage select targets) r)
  after_select targets (ok a, w) p = resolve_revision-Answers targets a w p
  after_select targets (raise e, w) p = tt
  after_select targets (no_fuel, w) p = tt

  chosen :
      (targets : List Swhid) (r : Result (Option Swhid) × W)
      → Post
          (λ r _.
            Answers
              (λ t. Within t (
                without_missing
                  (keep gone (map (λ (x : Swhid). x.object_id) (keep is_release targets)))
                  (keep is_release targets)))
              r)
          (λ _ _. Unit)
          r
      → Post (λ r _. Answers (λ t. Within t targets × IsPresent gone t) r) (λ _ _. Unit) r
  chosen targets (ok none, w) p = tt
  chosen targets (ok (some t), w) p =
      let (inside, here) = present gone (keep is_release targets) t p in
      ((Within-keep is_release t targets inside).0, λ _. here)
  chosen targets (raise e, w) p = tt
  chosen targets (no_fuel, w) p = tt

  resolve_targets-Answers :
      (p_info : PackageInfo) (targets : List Swhid) (w : W)
      → Post
          (λ r _. Answers (λ t. Within t targets × IsPresent gone t) r)
          (λ _ _. Unit)
          (resolve_targets storage select p_info targets w)
  unfolding resolve_targets effects
  resolve_targets-Answers p_info [] w = tt
  resolve_targets-Answers p_info (t ∷ rest) w =
      rw (answers (map (λ (x : Swhid). x.object_id) (keep is_release (t ∷ rest))) w)
        (after_select (t ∷ rest) _ (chosen (t ∷ rest) _ (chooses p_info _ w)))

  resolve_scanned-Answers :
      (p_info : PackageInfo) (b : Bool) (targets : List Swhid) (w : W)
      → Post
          (λ r _. Answers (λ t. Within t targets × IsPresent gone t) r)
          (λ _ _. Unit)
          (resolve_scanned storage select b p_info targets w)
  unfolding effects
  resolve_scanned-Answers p_info true targets w = tt
  resolve_scanned-Answers p_info false targets w = resolve_targets-Answers p_info targets w

-- What a resolved target is to be: known under the package's extid, a release or revision of the
-- last snapshot, and not a release that the archive has lost.
abbrev pub IsResolved :
    (PackageInfo → Option PartialExtId)
    → Known
    → PackageInfo
    → List Sha1Git
    → (Sha1Git → Bool)
    → Swhid
    → Type 0
IsResolved extid known p_info whitelist gone t =
    (k : PartialExtId) × (extid p_info ≡ some k)
    × IsUsable whitelist (entries k known) t
    × IsPresent gone t

IsResolved-Post :
    {W : Type 0} (extid : PackageInfo → Option PartialExtId) (known : Known) (p_info : PackageInfo)
    (whitelist : List Sha1Git) (gone : Sha1Git → Bool) (k : PartialExtId)
    → extid p_info ≡ some k
    → (r : Result (Option Swhid) × W)
    → Post
        (λ r _.
          Answers (λ t. Within t (whitelisted whitelist (entries k known)) × IsPresent gone t) r)
        (λ _ _. Unit)
        r
    → Post (λ r _. Answers (IsResolved extid known p_info whitelist gone) r) (λ _ _. Unit) r
IsResolved-Post extid known p_info whitelist gone k e (ok none, w) p = tt
IsResolved-Post extid known p_info whitelist gone k e (ok (some t), w) p =
    (k, e, whitelisted-IsUsable whitelist (entries k known) t p.0, p.1)
IsResolved-Post extid known p_info whitelist gone k e (raise x, w) p = tt
IsResolved-Post extid known p_info whitelist gone k e (no_fuel, w) p = tt

-- Where the storage reports exactly the missing releases and the loader selects among what it is
-- given, a target that is resolved for a package was known under the package's extid, is a release
-- or a revision that the last snapshot has, and is not a release that is missing.
pub resolve_sound :
    {W : Type 0} (storage : Storage W) (select : PackageInfo → List Swhid → Exec W (Option Swhid))
    (gone : Sha1Git → Bool)
    → Chooses select
    → ((ids : List Sha1Git) (w : W) → storage.release_missing ids w ≡ (ok (keep gone ids), w))
    → (extid : PackageInfo → Option PartialExtId) (known : Known) (p_info : PackageInfo)
      (whitelist : List Sha1Git) (w : W)
    → Post
        (λ r _. Answers (IsResolved extid known p_info whitelist gone) r)
        (λ _ _. Unit)
        (resolve_object_from_extids storage select extid known p_info whitelist w)
unfolding resolve_object_from_extids effects
resolve_sound storage select gone chooses answers extid known p_info whitelist w =
    elim (Option-cases (extid p_info)) [
      | inl e ↦ rw (e, resolve_object_from_extids) tt
      | inr (k, e) ↦
          rw (e, resolve_object_from_extids)
            (IsResolved-Post extid known p_info whitelist gone k e _ (
              resolve_scanned-Answers storage select chooses gone answers p_info
                (has_other whitelist (entries k known)) (whitelisted whitelist (entries k known))
                w))
    ]
