-- ===== src/Package/Visit/Refusal.antt =====
-- package/loader.py: PackageLoader.load goes without a visit only where the storage refuses one.
use swh_loader_core.Prelude.{◌≡◌, refl, true, none, [], ◌∷◌}
use mathlib.Core.Path.{subst}
use swh_loader_core.Effects.{Exception, is_exception, Result, ok, raise, no_fuel}
use swh_loader_core.Effects.Hoare.{Post, Any, Triple, Triple-pure, Triple-bind, Triple-try_except}
use swh_loader_core.Model.{OriginVisit, Identifiers}
use swh_loader_core.Storage.{Storage, Logged, Call, call, rejoin}
use swh_loader_core.Core.Base.Init.{Config}
use swh_loader_core.Package.Methods.{Methods, Disk}
use swh_loader_core.Package.Visit.{start_visit}

abbrev the_visit : Config → OriginVisit
the_visit config = record {
  origin = config.origin_url;
  date = config.visit_date;
  type = config.visit_type;
  visit = none;
}

-- In this world the storage refuses the origin, or then the visit.
pub data Refused {W : Type 0} (config : Config) (storage : Storage W) (w : W) : Type 0 where
  no_origin :
      (e : Exception) (w1 : W)
      → is_exception e ≡ true
      → storage.origin_add (config.origin_url ∷ []) w ≡ (raise e, w1)
      → Refused config storage w
  no_visit :
      (e : Exception) (w1 w2 : W)
      → is_exception e ≡ true
      → storage.origin_add (config.origin_url ∷ []) w ≡ (ok tt, w1)
      → storage.origin_visit_add (the_visit config) w1 ≡ (raise e, w2)
      → Refused config storage w

module _ {W : Type 0} (config : Config) (identifiers : Identifiers) (methods : Methods W)
    (disk : Disk W) (storage : Storage W) (w : W) where
  -- What is known of an exception of start_visit.
  abbrev Cause : Exception → Logged W → Type 0
  Cause e s = is_exception e ≡ true → Refused config storage w

  add_origin :
      (c : Call)
      → Triple
          (λ s. s.world ≡ w)
          (call c (storage.origin_add (config.origin_url ∷ [])))
          (λ u s. storage.origin_add (config.origin_url ∷ []) w ≡ (ok u, s.world))
          Cause
  unfolding call
  add_origin c = record {
    run = λ s h. answered s h (storage.origin_add (config.origin_url ∷ []) s.world) refl;
  }
    where
      answered :
          (s : Logged W)
          → s.world ≡ w
          → (r : Result (Unit {0}) × W) → storage.origin_add (config.origin_url ∷ []) s.world ≡ r
          → Post
              (λ u t. storage.origin_add (config.origin_url ∷ []) w ≡ (ok u, t.world))
              Cause
              (rejoin (c ∷ s.calls) r)
      answered s h (ok u, v) e =
          subst (λ x. storage.origin_add (config.origin_url ∷ []) x ≡ (ok u, v)) h e
      answered s h (raise x, v) e = λ b.
          no_origin x v b
            (subst (λ y. storage.origin_add (config.origin_url ∷ []) y ≡ (raise x, v)) h e)
      answered s h (no_fuel, v) e = tt

  add_visit :
      (c : Call)
      → Triple
          (λ s. storage.origin_add (config.origin_url ∷ []) w ≡ (ok tt, s.world))
          (call c (storage.origin_visit_add (the_visit config)))
          (λ v s. Unit {0})
          Cause
  unfolding call
  add_visit c = record {
    run = λ s h. answered s h (storage.origin_visit_add (the_visit config) s.world) refl;
  }
    where
      answered :
          (s : Logged W)
          → storage.origin_add (config.origin_url ∷ []) w ≡ (ok tt, s.world)
          → (r : Result OriginVisit × W) → storage.origin_visit_add (the_visit config) s.world ≡ r
          → Post (λ v t. Unit {0}) Cause (rejoin (c ∷ s.calls) r)
      answered s h (ok v, t) e = tt
      answered s h (raise x, t) e = λ b. no_visit x s.world t b h e
      answered s h (no_fuel, t) e = tt

  -- start_visit gives no visit only if it was refused.
  pub start_visit-Refused :
      Triple
        (λ s. s.world ≡ w)
        (start_visit config identifiers methods disk storage)
        (λ v s. v ≡ none → Refused config storage w)
        Any
  unfolding start_visit
  start_visit-Refused =
      Triple-try_except {T = Cause}
        (Triple-bind (add_origin _)
          λ u. Triple-bind (add_visit _) λ v. Triple-pure _ (λ s h e. absurd (cc e)))
        (λ e b. Triple-pure none (λ s h n. h b)) (λ e s b h. tt)
