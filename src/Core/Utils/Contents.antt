-- ===== src/Core/Utils/Contents.antt =====
-- core/converters.py: prepare_contents sorts every content to one side.
use swh_loader_core.Prelude.{
  ℕ, zero, suc, String, Bool, true, false, not, leb, ◌≡◌, refl, sym, ◌∙◌, Option, none, some, List,
  [], ◌∷◌, arith, All,
}
use swh_loader_core.Effects.{Exec, pure, ◌>>=◌, Result, ok, raise, no_fuel}
use swh_loader_core.Effects.Hoare.{Post, Triple, Triple-pure, Triple-bind, Triple-elim}
use swh_loader_core.Core.Utils.{
  DiskContent, StoredContent, skipped, visible, is_too_large, content_for_storage, add_content,
  prepare_contents,
}

abbrev pub IsVisible : StoredContent → Type 0
IsVisible (visible i c) = Unit
IsVisible (skipped i r o) = ⊥

abbrev pub IsSkipped : StoredContent → Type 0
IsSkipped (visible i c) = ⊥
IsSkipped (skipped i r o) = Unit

-- Longer than the limit, if there is one; the limit 0 is none.
abbrev pub exceeds : Option ℕ → ℕ → Bool
exceeds none length = false
exceeds (some zero) length = false
exceeds (some (suc n)) length = not (leb length (suc n))

exceeds_lem : (limit : Option ℕ) (length : ℕ) → is_too_large limit length ≡ exceeds limit length
exceeds_lem none length = refl
exceeds_lem (some zero) length = ground arith
exceeds_lem (some (suc n)) length = ground arith

-- What a content becomes: skipped exactly if it is too large.
abbrev IsFor : Option ℕ → DiskContent → StoredContent → Type 0
IsFor limit c (visible i d) = (exceeds limit c.content_length ≡ false) × (i ≡ c.sha1_git)
IsFor limit c (skipped i r o) = (exceeds limit c.content_length ≡ true) × (i ≡ c.sha1_git)

-- The identifiers of the contents that are too large, or not, in their order.
abbrev pub ids : Bool → Option ℕ → List DiskContent → List String
ids large limit [] = []
ids large limit (c ∷ contents) =
    let rest = ids large limit contents in
    elim (exceeds limit c.content_length) [
      | true ↦ elim large [ true ↦ c.sha1_git ∷ rest | false ↦ rest ]
      | false ↦ elim large [ true ↦ rest | false ↦ c.sha1_git ∷ rest ]
    ]

abbrev pub stored_id : StoredContent → String
stored_id (visible i d) = i
stored_id (skipped i r o) = i

abbrev pub stored_ids : List StoredContent → List String
stored_ids [] = []
stored_ids (c ∷ contents) = stored_id c ∷ stored_ids contents

-- The two lists hold the contents of either kind.
abbrev pub IsSplit : Option ℕ → List DiskContent → List StoredContent × List StoredContent → Type 0
IsSplit limit contents r =
    (All IsVisible r.0 × All IsSkipped r.1)
    × ((stored_ids r.0 ≡ ids false limit contents) × (stored_ids r.1 ≡ ids true limit contents))

module _ {W : Type 0} (read_file : String → Exec W String) (limit : Option ℕ)
    (origin_url : Option String) where
  content_for_storage_lem :
      (c : DiskContent)
      → Triple
          (λ (w : W). Unit {0})
          (content_for_storage read_file limit origin_url c)
          (λ s w. IsFor limit c s)
          (λ e w. Unit {0})
  unfolding content_for_storage
  content_for_storage_lem c =
      Triple-elim (is_too_large limit c.content_length)
        (λ b. Triple-pure _ (λ w t. (sym (exceeds_lem limit c.content_length) ∙ b, refl)))
        (λ b. by_data (sym (exceeds_lem limit c.content_length) ∙ b) c.data_)
    where
      from_disk :
          exceeds limit c.content_length ≡ false
          → Triple
              (λ (w : W). Unit {0})
              (read_file c.path)
              (λ found w. exceeds limit c.content_length ≡ false)
              (λ e w. Unit {0})
      from_disk b = record { run = λ w t. keep_Post (read_file c.path w) }
        where
          keep_Post :
              (r : Result String × W)
              → Post (λ a v. exceeds limit c.content_length ≡ false) (λ e v. Unit {0}) r
          keep_Post (ok a, v) = b
          keep_Post (raise x, v) = tt
          keep_Post (no_fuel, v) = tt

      by_data :
          exceeds limit c.content_length ≡ false
          → (o : Option String)
          → Triple
              (λ (w : W). Unit {0})
              (elim o [
                | some found ↦ pure (visible c.sha1_git found)
                | none ↦ read_file c.path >>= λ found. pure (visible c.sha1_git found)
              ])
              (λ s w. IsFor limit c s)
              (λ e w. Unit {0})
      by_data b (some found) = Triple-pure _ (λ w t. (b, refl))
      by_data b none = Triple-bind (from_disk b) λ found. Triple-pure _ (λ w h. (h, refl))

  add_content-IsSplit :
      (c : DiskContent) (s : StoredContent) (contents : List DiskContent)
      (r : List StoredContent × List StoredContent)
      → IsFor limit c s
      → IsSplit limit contents r
      → IsSplit limit (c ∷ contents) (add_content read_file limit origin_url s r)
  add_content-IsSplit c (visible i d) contents r f h =
      (((tt, h.0.0), h.0.1), (ground (arith, f.0, f.1, h.1.0), ground (arith, f.0, h.1.1)))
  add_content-IsSplit c (skipped i m o) contents r f h =
      ((h.0.0, (tt, h.0.1)), (ground (arith, f.0, h.1.0), ground (arith, f.0, f.1, h.1.1)))

  splits :
      (contents : List DiskContent)
      → Triple
          (λ (w : W). Unit {0})
          (prepare_contents read_file limit origin_url contents)
          (λ r w. IsSplit limit contents r)
          (λ e w. Unit {0})
  unfolding prepare_contents
  splits [] = Triple-pure _ (λ w t. ((tt, tt), (refl, refl)))
  splits (c ∷ contents) = Triple-bind (content_for_storage_lem c) λ s. record {
    run = λ w f.
        ((Triple-bind {Q = λ r w. IsSplit limit contents r} (splits contents)
            λ r. Triple-pure _ (λ v h. add_content-IsSplit c s contents r f h))).run
          w tt;
  }

  -- If `prepare_contents` returns, it has put every content in one of its two lists, in the order of the
  -- contents: the skipped ones are those that are longer than the limit, where there is a limit other than 0.
  pub prepare_contents-IsSplit :
      (contents : List DiskContent) (w : W)
      → Post
          (λ r w'. IsSplit limit contents r)
          (λ e w'. Unit {0})
          (prepare_contents read_file limit origin_url contents w)
  prepare_contents-IsSplit contents w = (splits contents).run w tt
