-- ===== src/Forges/Crates/Verified.antt =====
-- package/crates/loader.py: the manifest of a crate, and what is downloaded for it.
use text.Mathlib.TextLemmas.{append_cancel_left}
use mathlib.Core.Path.{subst}
use mathlib.Core.Option.{some-injective}
use swh_loader_core.Prelude.{ℕ, String, ◌≡◌, refl, sym, ap, ◌∙◌, some, Dict, [], ◌∷◌}
use swh_loader_core.Effects.{Exec, ok}
use swh_loader_core.Effects.Hoare.{Post, Triple, Any, Triple-pure, Triple-skip}
use swh_loader_core.Core.Utils.Download.{Web, hex}
use swh_loader_core.Package.Defaults.{download_package}
use swh_loader_core.Package.Defaults.Verified.{HasDigest, download_package-HasDigest}
use swh_loader_core.Forges.Json.{Json, Cache}
use swh_loader_core.Forges.Host.{Host}
use swh_loader_core.Forges.Lines.{IsLine, cut_at}
use swh_loader_core.Forges.Crates.{CratesInfo, manifest, get_package_info}

manifest-sha256 :
    (printed_date : ℕ → String) (n n' s s' u u' v v' : String) (d d' : ℕ)
    → IsLine n
    → IsLine n'
    → IsLine s
    → IsLine s'
    → manifest printed_date n s u v d ≡ manifest printed_date n' s' u' v' d'
    → s ≡ s'
unfolding manifest
manifest-sha256 printed_date n n' s s' u u' v v' d d' ln ln' ls ls' e =
    let a = cut_at "\n" "shasum " n n' _ _ refl ln ln' (append_cancel_left "name " _ _ e) in
    (cut_at "\n" "url " s s' _ _ refl ls ls' a.1).0

-- The manifest is that of the fields, and the archive is checked against the sha256.
abbrev pub IsMade : (printed_date : ℕ → String) → CratesInfo → Type 0
IsMade printed_date p_info =
    (p_info.base.manifest
      ≡ some (
          manifest printed_date p_info.name p_info.sha256 p_info.base.url p_info.base.version
            p_info.last_update))
    × (p_info.base.checksums ≡ ("sha256", hex p_info.sha256) ∷ [])

module _ {W : Type 0} (host : Host W) (web : Web W) (printed_date : ℕ → String)
    (parse_date : String → Exec W ℕ) (cache : Cache W String (Dict String Json)) where
  get_package_info-IsMade :
      (url : String) (artifacts : Dict String Json) (version : String)
      → Triple
          (λ w. Unit {0})
          (get_package_info host printed_date parse_date cache url artifacts version)
          (λ e w. IsMade printed_date e.1)
          Any
  unfolding get_package_info
  get_package_info-IsMade url artifacts version = Triple-skip _ λ artifact.
      Triple-skip _ λ filename. Triple-skip _ λ checksums. Triple-skip _ λ sha256.
        Triple-skip _ λ full. Triple-skip _ λ artifact_url. Triple-skip _ λ extrinsic.
          Triple-skip _ λ found.
            Triple-skip _
              λ updated_at. Triple-skip _ λ last_update. Triple-pure _ (λ w p. (refl, refl))

  -- Take two crates that get_package_info has returned, for any versions of any two origins. If they have the
  -- same manifest, and so the same ExtID, then whenever download_package returns for the second, it
  -- returns one file, a response at that crate's URL, with the sha256 of the first. Assumed: the
  -- names and the hashes have no newline.
  pub same_manifest_same_crate :
      (url url' : String) (artifacts artifacts' : Dict String Json) (version version' : String)
      (w v w' v' : W) (e e' : String × CratesInfo)
      → get_package_info host printed_date parse_date cache url artifacts version w ≡ (ok e, v)
      → get_package_info host printed_date parse_date cache url' artifacts' version' w'
        ≡ (ok e', v')
      → IsLine e.1.name
      → IsLine e'.1.name
      → IsLine e.1.sha256
      → IsLine e'.1.sha256
      → e.1.base.manifest ≡ e'.1.base.manifest
      → (tmpdir : String) (u : W)
      → Post
          (λ artifacts x. HasDigest web e'.1.base.url "sha256" e.1.sha256 artifacts)
          Any
          (download_package web e'.1.base tmpdir u)
  same_manifest_same_crate url url' artifacts artifacts' version version' w v w' v' e e' r r' n n' s
        s' same tmpdir u =
      let made : IsMade printed_date e.1 =
        subst (Post (λ x t. IsMade printed_date x.1) Any) r
          ((get_package_info-IsMade url artifacts version).run w tt) in
      let made' : IsMade printed_date e'.1 =
        subst (Post (λ x t. IsMade printed_date x.1) Any) r'
          ((get_package_info-IsMade url' artifacts' version').run w' tt) in
      let sha256 =
        manifest-sha256 printed_date e.1.name e'.1.name e.1.sha256 e'.1.sha256 _ _ _ _ _ _ n n' s s'
          (some-injective _ _ (sym made.0 ∙ (same ∙ made'.0))) in
      download_package-HasDigest web e'.1.base "sha256" e.1.sha256 tmpdir u
        (made'.1 ∙ ap (λ (h : String). ("sha256", hex h) ∷ []) (sym sha256))
