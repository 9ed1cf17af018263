-- ===== src/Forges/Npm/Verified.antt =====
-- package/npm/loader.py: the manifest of a package, and what is downloaded for it.
use mathlib.Core.Path.{subst}
use mathlib.Core.Option.{some-injective}
use swh_loader_core.Prelude.{String, ◌≡◌, refl, sym, ap, ◌∙◌, some, [], ◌∷◌}
use swh_loader_core.Effects.{ok}
use swh_loader_core.Effects.Hoare.{Post, Triple, Any, Triple-bind, Triple-pure, Triple-skip}
use swh_loader_core.Core.Utils.Download.{Web, hex}
use swh_loader_core.Package.Defaults.{download_package}
use swh_loader_core.Package.Defaults.Verified.{HasDigest, download_package-HasDigest}
use swh_loader_core.Forges.Json.{Json, Cache}
use swh_loader_core.Forges.Host.{Host}
use swh_loader_core.Forges.Lines.{IsLine}
use swh_loader_core.Forges.Npm.{NpmInfo, manifest, printed_date, from_metadata, get_package_info}
use swh_loader_core.Forges.Npm.Manifest.{manifest-injective}

-- The manifest is that of the fields, and the archive is checked against the shasum in it.
abbrev pub IsMade : NpmInfo → Type 0
IsMade p_info =
    (p_info.base.manifest
      ≡ some (
          manifest p_info.date p_info.package_name p_info.shasum p_info.base.url
            p_info.base.version))
    × (p_info.base.checksums ≡ ("sha1", hex p_info.shasum) ∷ [])

-- The fields of the manifest up to the URL are on one line each.
pub record AreLines (p_info : NpmInfo) : Type 0 where
  pub date_line : IsLine (printed_date p_info.date)
  pub name_line : IsLine p_info.package_name
  pub shasum_line : IsLine p_info.shasum
  pub url_line : IsLine p_info.base.url

module _ {W : Type 0} (host : Host W) where
  from_metadata-IsMade :
      (project_metadata : Json) (version : String)
      → Triple
          (λ w. Unit {0})
          (from_metadata host project_metadata version)
          (λ p_info w. IsMade p_info)
          Any
  unfolding from_metadata
  from_metadata-IsMade project_metadata version = Triple-skip _ λ versions.
      Triple-skip _ λ package_metadata. Triple-skip _ λ dist. Triple-skip _ λ url.
        Triple-skip _ λ name. Triple-skip _ λ project_name. Triple-skip _ λ same.
          Triple-skip _ λ extrinsic.
            Triple-skip _ λ date. Triple-skip _ λ shasum. Triple-pure _ (λ w p. (refl, refl))

  get_package_info-IsMade :
      (cache : Cache W String Json) (provider_url version : String)
      → Triple
          (λ w. Unit {0})
          (get_package_info host cache provider_url version)
          (λ e w. IsMade e.1)
          Any
  unfolding get_package_info
  get_package_info-IsMade cache provider_url version = Triple-skip _ λ project.
      Triple-bind (from_metadata-IsMade project version) (λ p_info. Triple-pure _ (λ w h. h))

  -- Take two packages that get_package_info has returned, for any versions of any two projects. If they have
  -- the same manifest, and so the same ExtID, then whenever download_package returns for the second,
  -- it returns one file, a response at that package's URL, with the sha1 of the first. Assumed of
  -- the fields of either package that come up to the URL in the manifest: each is on one line.
  pub same_manifest_same_archive :
      (web : Web W) (cache : Cache W String Json)
      (provider_url provider_url' version version' : String) (w v w' v' : W)
      (e e' : String × NpmInfo)
      → get_package_info host cache provider_url version w ≡ (ok e, v)
      → get_package_info host cache provider_url' version' w' ≡ (ok e', v')
      → AreLines e.1
      → AreLines e'.1
      → e.1.base.manifest ≡ e'.1.base.manifest
      → (tmpdir : String) (u : W)
      → Post
          (λ artifacts x. HasDigest web e'.1.base.url "sha1" e.1.shasum artifacts)
          Any
          (download_package web e'.1.base tmpdir u)
  same_manifest_same_archive web cache url url' version version' w v w' v' e e' r r' l l' same
        tmpdir u =
      let made : IsMade e.1 =
        subst (Post (λ x s. IsMade x.1) Any) r
          ((get_package_info-IsMade cache url version).run w tt) in
      let made' : IsMade e'.1 =
        subst (Post (λ x s. IsMade x.1) Any) r'
          ((get_package_info-IsMade cache url' version').run w' tt) in
      let texts = some-injective _ _ (sym made.0 ∙ (same ∙ made'.0)) in
      let fields =
        manifest-injective e.1.date e'.1.date _ _ _ _ _ _ _ _ l.date_line l'.date_line l.name_line
          l'.name_line l.shasum_line l'.shasum_line l.url_line l'.url_line texts in
      download_package-HasDigest web e'.1.base "sha1" e.1.shasum tmpdir u
        (made'.1 ∙ ap (λ (s : String). ("sha1", hex s) ∷ []) (sym fields.1.1.0))
