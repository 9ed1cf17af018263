-- ===== src/Package/Defaults/Sorted.antt =====
-- package/loader.py: the order of the versions, and the default version. The comparison of LooseVersion2
-- is a parameter; what is needed of it is that of two versions not both are newer, and that "not
-- newer" is transitive.
use swh_loader_core.Prelude.{
  String, ◌≡◌, refl, Bool, true, false, Option, none, some, List, [], ◌∷◌, last?, if◌then◌else◌,
  All, Within, inl, inr, Bool-cases,
}
use mathlib.Core.List.{Perm}
use mathlib.Core.List.Perm
use mathlib.Core.Option.{some-injective}
use mathlib.Core.Path.{subst}
use swh_loader_core.Effects.{Exec}
use swh_loader_core.Effects.Hoare.{
  Post, Triple, Any, Returned, Triple-Returned, Triple-bind, Triple-pure, Triple-throw,
}
use swh_loader_core.Package.Defaults.{
  insert_version, sort_versions, get_sorted_versions, last_version, get_default_version,
}

module _ {A : Type 0} (newer : A → A → Bool) where
  abbrev pub Ordered : List A → Type 0
  Ordered [] = Unit
  Ordered (x ∷ xs) = All (λ y. newer x y ≡ false) xs × Ordered xs

  All-insert_version :
      (P : A → Type 0) (v : A) (xs : List A) → P v → All P xs → All P (insert_version newer v xs)
  unfolding insert_version
  All-insert_version P v [] p ps = (p, tt)
  All-insert_version P v (x ∷ xs) p ps = elim (Bool-cases (newer v x)) [
    | inl e ↦ rw e (ps.0, All-insert_version P v xs p ps.1)
    | inr e ↦ rw e (p, ps)
  ]

  All-sort_versions : (P : A → Type 0) (vs : List A) → All P vs → All P (sort_versions newer vs)
  unfolding sort_versions
  All-sort_versions P [] ps = tt
  All-sort_versions P (v ∷ vs) ps =
      All-insert_version P v (sort_versions newer vs) ps.0 (All-sort_versions P vs ps.1)

  module _ (asym : (a b : A) → newer a b ≡ true → newer b a ≡ false)
      (trans : (a b c : A) → newer a b ≡ false → newer b c ≡ false → newer a c ≡ false) where
    All-later :
        (v x : A) (xs : List A)
        → newer v x ≡ false
        → All (λ y. newer x y ≡ false) xs
        → All (λ y. newer v y ≡ false) xs
    All-later v x [] e h = tt
    All-later v x (y ∷ xs) e h = (trans v x y e h.0, All-later v x xs e h.1)

    insert_version-Ordered :
        (v : A) (xs : List A) → Ordered xs → Ordered (insert_version newer v xs)
    unfolding insert_version
    insert_version-Ordered v [] h = (tt, tt)
    insert_version-Ordered v (x ∷ xs) h = elim (Bool-cases (newer v x)) [
      | inl e ↦ rw e (
        All-insert_version (λ y. newer x y ≡ false) v xs (asym v x e) h.0,
        insert_version-Ordered v xs h.1,
      )
      | inr e ↦ rw e ((e, All-later v x xs e h.0), h)
    ]

    pub sort_versions-Ordered : (vs : List A) → Ordered (sort_versions newer vs)
    unfolding sort_versions
    sort_versions-Ordered [] = tt
    sort_versions-Ordered (v ∷ vs) =
        insert_version-Ordered v (sort_versions newer vs) (sort_versions-Ordered vs)

  insert_version-Perm : (v : A) (xs : List A) → Perm (insert_version newer v xs) (v ∷ xs)
  unfolding insert_version
  insert_version-Perm v [] = Perm.refl (v ∷ [])
  insert_version-Perm v (x ∷ xs) = elim (Bool-cases (newer v x)) [
    | inl e ↦ rw e (Perm.trans (Perm.cons x (insert_version-Perm v xs)) (Perm.swap v x xs))
    | inr e ↦ rw e (Perm.refl (v ∷ x ∷ xs))
  ]

  pub sort_versions-Perm : (vs : List A) → Perm (sort_versions newer vs) vs
  unfolding sort_versions
  sort_versions-Perm [] = Perm.refl []
  sort_versions-Perm (v ∷ vs) =
      Perm.trans (insert_version-Perm v (sort_versions newer vs))
        (Perm.cons v (sort_versions-Perm vs))

  All-unsort_insert :
      (P : A → Type 0) (v : A) (xs : List A) → All P (insert_version newer v xs) → P v × All P xs
  unfolding insert_version
  All-unsort_insert P v [] ps = ps
  All-unsort_insert P v (x ∷ xs) ps = by_test (newer v x) ps (All-unsort_insert P v xs)
    where
      by_test :
          (b : Bool)
          → All P (if b then x ∷ insert_version newer v xs else v ∷ x ∷ xs)
          → (All P (insert_version newer v xs) → P v × All P xs)
          → P v × (P x × All P xs)
      by_test true h later = let r = later h.1 in (r.0, (h.0, r.1))
      by_test false h later = h

  All-unsort : (P : A → Type 0) (vs : List A) → All P (sort_versions newer vs) → All P vs
  unfolding sort_versions
  All-unsort P [] ps = tt
  All-unsort P (v ∷ vs) ps =
      let r = All-unsort_insert P v (sort_versions newer vs) ps in (r.0, All-unsort P vs r.1)

  All-Within : (P : A → Type 0) (xs : List A) → ((x : A) → Within x xs → P x) → All P xs
  All-Within P [] h = tt
  All-Within P (x ∷ xs) h = (h x (inl refl), All-Within P xs (λ y w. h y (inr w)))

  All-last : (P : A → Type 0) (xs : List A) (l : A) → All P xs → last? xs ≡ some l → P l
  All-last P [] l ps e = absurd (cc e)
  All-last P (x ∷ []) l ps e = subst P (some-injective x l e) ps.0
  All-last P (x ∷ y ∷ xs) l ps e = All-last P (y ∷ xs) l ps.1 e

  -- The last of an ordered list: no other is newer.
  last_newest :
      ((a : A) → newer a a ≡ false)
      → (xs : List A) (l : A) → Ordered xs
      → last? xs ≡ some l
      → All (λ y. newer y l ≡ false) xs
  last_newest irr [] l h e = tt
  last_newest irr (x ∷ []) l h e =
      (subst (λ z. newer x z ≡ false) (some-injective x l e) (irr x), tt)
  last_newest irr (x ∷ y ∷ xs) l h e =
      (All-last (λ z. newer x z ≡ false) (y ∷ xs) l h.0 e, last_newest irr (y ∷ xs) l h.1 e)

module _ {W : Type 0} (newer : String → String → Bool) (get_versions : Exec W (List String)) where
  abbrev IsSortOf : List String → Type 0
  IsSortOf sorted =
      (versions : List String) × (Returned get_versions versions
        × (sorted ≡ sort_versions newer versions))

  get_sorted_versions-IsSortOf :
      Triple
        (λ _. Unit {0})
        (get_sorted_versions newer get_versions)
        (λ sorted w. IsSortOf sorted)
        Any
  unfolding get_sorted_versions
  get_sorted_versions-IsSortOf =
      Triple-bind (Triple-Returned get_versions)
        λ versions. Triple-pure _ (λ w p. (versions, (p.1, refl)))

  -- If get_default_version returns, then the versions that get_versions has returned contain the version, and
  -- none of them is newer. Assumed of the comparison: no two versions are newer than each other,
  -- and "not newer" is transitive.
  pub get_default_version_newest :
      ((a b : String) → newer a b ≡ true → newer b a ≡ false)
      → ((a b c : String) → newer a b ≡ false → newer b c ≡ false → newer a c ≡ false)
      → (w : W)
      → Post
          (λ v w'.
            (versions : List String) × (Returned get_versions versions
              × (Within v versions × All (λ y. newer y v ≡ false) versions)))
          Any
          (get_default_version newer get_versions w)
  unfolding get_default_version
  get_default_version_newest asym trans w =
      (Triple-bind get_sorted_versions-IsSortOf (λ sorted. of_last sorted (last? sorted) refl)).run
        w tt
    where
      irr : (a : String) → newer a a ≡ false
      irr a = elim (Bool-cases (newer a a)) [ inl e ↦ asym a a e | inr e ↦ e ]

      of_last :
          (sorted : List String) (o : Option String)
          → last? sorted ≡ o
          → Triple {S = W}
              (λ _. IsSortOf sorted)
              (last_version o)
              (λ v w'.
                (versions : List String) × (Returned get_versions versions
                  × (Within v versions × All (λ y. newer y v ≡ false) versions)))
              Any
      of_last sorted none e = Triple-throw _ (λ v p. tt)
      of_last sorted (some l) e = Triple-pure l λ v p.
          let last : last? (sort_versions newer p.0) ≡ some l =
            subst (λ s. last? s ≡ some l) p.1.1 e in
          (
            p.0,
            (
              p.1.0,
              (
                All-last newer (λ x. Within x p.0) (sort_versions newer p.0) l
                    (All-sort_versions newer (λ x. Within x p.0) p.0
                      (All-Within newer (λ x. Within x p.0) p.0 (λ x h. h)))
                    last,
                All-unsort newer (λ y. newer y l ≡ false) p.0
                    (last_newest newer irr (sort_versions newer p.0) l
                      (sort_versions-Ordered newer asym trans p.0) last),
              ),
            ),
          )
