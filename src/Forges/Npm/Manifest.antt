-- ===== src/Forges/Npm/Manifest.antt =====
-- package/npm/loader.py: the manifest behind the ExtID of a package determines what build_release uses.
use text.Mathlib.TextLemmas.{append_cancel_left, append-nil}
use mathlib.Core.Option.{some-injective}
use swh_loader_core.Prelude.{ℕ, String, ◌≡◌, ◌≢◌, refl, ap, [], Dict, sym, ◌∙◌, Option, none, some}
use swh_loader_core.Effects.{Exec}
use swh_loader_core.Model.{Sha1Git}
use swh_loader_core.Forges.Json.{Json, null}
use swh_loader_core.Forges.Host.{Host}
use swh_loader_core.Forges.Lines.{IsLine, cut_at}
use swh_loader_core.Forges.Npm.{NpmInfo, manifest, printed_date, release_from, build_release}

pub manifest-injective :
    (d d' : Option String) (n n' s s' u u' v v' : String)
    → IsLine (printed_date d)
    → IsLine (printed_date d')
    → IsLine n
    → IsLine n'
    → IsLine s
    → IsLine s'
    → IsLine u
    → IsLine u'
    → manifest d n s u v ≡ manifest d' n' s' u' v'
    → (printed_date d ≡ printed_date d') × ((n ≡ n') × ((s ≡ s') × ((u ≡ u') × (v ≡ v'))))
unfolding manifest
manifest-injective d d' n n' s s' u u' v v' ld ld' ln ln' ls ls' lu lu' e =
    let a =
      cut_at "\n" "name " (printed_date d) (printed_date d') _ _ refl ld ld'
        (append_cancel_left "date " _ _ e) in
    let b = cut_at "\n" "shasum " n n' _ _ refl ln ln' a.1 in
    let c = cut_at "\n" "url " s s' _ _ refl ls ls' b.1 in
    let f = cut_at "\n" "version " u u' _ _ refl lu lu' c.1 in
    (a.0, (b.0, (c.0, (f.0, sym (append-nil v) ∙ (f.1 ∙ append-nil v')))))

-- The package has the manifest of its fields, each on one line.
pub record IsListed (p_info : NpmInfo) : Type 0 where
  pub has_manifest :
      p_info.base.manifest
      ≡ some (
          manifest p_info.date p_info.package_name p_info.shasum p_info.base.url
            p_info.base.version)
  pub date_line : IsLine (printed_date p_info.date)
  pub name_line : IsLine p_info.package_name
  pub shasum_line : IsLine p_info.shasum
  pub url_line : IsLine p_info.base.url
  -- A date is not the text that stands for a missing one.
  pub date_is_known : p_info.date ≢ some "None"

-- A package with the fields that build_release reads, and nothing else.
bare : (date : Option String) → (package_name url version : String) → NpmInfo
bare date package_name url version = record {
  base = record {
    url = url;
    filename = none;
    version = version;
    directory_extrinsic_metadata = [];
    checksums = [];
    manifest = none;
  };
  raw_info = null;
  package_name = package_name;
  date = date;
  shasum = "";
}

printed_date_inj :
    (d d' : Option String)
    → d ≢ some "None"
    → d' ≢ some "None"
    → printed_date d ≡ printed_date d'
    → d ≡ d'
printed_date_inj none none k k' e = refl
printed_date_inj none (some d') k k' e = absurd (k' (ap some (sym e)))
printed_date_inj (some d) none k k' e = absurd (k (ap some e))
printed_date_inj (some d) (some d') k k' e = ap some e

-- Two packages with the same manifest have the same archive hash, and for the same directory build_release does
-- the same for both: the manifest behind the ExtID has all that a release is built of. Assumed of
-- the fields: none has a newline, and no date is the text "None".
pub same_manifest_same_release :
    {W : Type 0} (host : Host W) (load : String → Exec W (Dict String Json)) (package_name : String)
    (seconds : ℕ → ℕ) (p q : NpmInfo)
    → IsListed p
    → IsListed q
    → p.base.manifest ≡ q.base.manifest
    → (path : String) (directory : Sha1Git) (w : W)
    → (p.shasum ≡ q.shasum)
      × (build_release host load package_name seconds p path directory w
          ≡ build_release host load package_name seconds q path directory w)
unfolding build_release release_from bare
same_manifest_same_release host load package_name seconds p q lp lq e path directory w =
    let same = some-injective _ _ (sym lp.has_manifest ∙ (e ∙ lq.has_manifest)) in
    let fields =
      manifest-injective p.date q.date _ _ _ _ _ _ _ _ lp.date_line lq.date_line lp.name_line
        lq.name_line lp.shasum_line lq.shasum_line lp.url_line lq.url_line same in
    let date = printed_date_inj p.date q.date lp.date_is_known lq.date_is_known fields.0 in
    (
      fields.1.1.0,
      ap (λ (x : NpmInfo). build_release host load package_name seconds x path directory w)
          (bare_equal date fields.1.0 fields.1.1.1.0 fields.1.1.1.1),
    )
  where
    bare_equal :
        {d d' : Option String} {n n' u u' v v' : String}
        → d ≡ d'
        → n ≡ n'
        → u ≡ u'
        → v ≡ v'
        → bare d n u v ≡ bare d' n' u' v'
    bare_equal a b c f = cc (a, b, c, f)
