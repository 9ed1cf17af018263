-- ===== src/Forges/Samples/Registries.antt =====
-- The loaders for PyPI, npm, crates.io and opam at small packages.
use swh_loader_core.Prelude.{
  ℕ, String, ◌≡◌, refl, none, some, [], ◌∷◌, All, Different, map, string_eq, Dict,
}
use mathlib.Core.Option.{some-injective}
use swh_loader_core.Effects.Hoare.{Post, Any}
use swh_loader_core.Samples.{give}
use swh_loader_core.Core.Utils.Download.{hex}
use swh_loader_core.Package.Defaults.{download_package}
use swh_loader_core.Package.Defaults.Verified.{HasDigest}
use swh_loader_core.Forges.Json.{Json, Cache, null, str, dict, entry_and, no_entries}
use swh_loader_core.Forges.Pypi
use swh_loader_core.Forges.Pypi.Verified.{DownloadsItsHash, get_package_info_verified}
use swh_loader_core.Forges.Npm.{NpmInfo, manifest, build_release}
use swh_loader_core.Forges.Npm
use swh_loader_core.Forges.Npm.Manifest.{IsListed, same_manifest_same_release}
use swh_loader_core.Forges.Npm.Verified.{AreLines, same_manifest_same_archive}
use swh_loader_core.Forges.Pypi.{PypiInfo}
use swh_loader_core.Forges.Pypi.Names.{HasFile, names, branch_names-Different}
use swh_loader_core.Forges.Crates
use swh_loader_core.Forges.Crates.Verified.{same_manifest_same_crate}
use swh_loader_core.Forges.Crates.{CratesInfo}
use swh_loader_core.Forges.Lines.{IsLine}
use swh_loader_core.Forges.Opam.Checksums.{parse_checksums}
use swh_loader_core.Forges.Opam.RoundTrip.{
  PlainPair, print_checksums, with_pairs, parse-print_checksums,
}
use swh_loader_core.Effects.{ok, effects}
use swh_loader_core.Core.Utils.{cached_method}
use swh_loader_core.Forges.Samples.{sample_web, sample_host, no_cache}

get_package_info_verified_example :
    Post
      (λ infos v.
        All (λ e. DownloadsItsHash sample_host sample_web e.1 × (e.1.base.version ≡ "1.0")) infos)
      Any
      (Pypi.get_package_info sample_host no_cache "https://example.org/pypi/f/json" "1.0" 0)
get_package_info_verified_example =
    get_package_info_verified sample_host sample_web no_cache "https://example.org/pypi/f/json"
      "1.0" 0

abbrev npm_version : Json
npm_version = dict (
    entry_and "dist"
      (dict (
        entry_and "tarball" (str "https://example.org/f.tgz")
          (entry_and "shasum" (str "sha1") no_entries)))
      (entry_and "name" (str "f") (entry_and "version" (str "1.0") no_entries)))

-- The registry was asked before.
abbrev npm_cache : Cache ℕ String Json
npm_cache = record {
  look = λ u w. some (
      dict (
        entry_and "versions" (dict (entry_and "1.0" npm_version no_entries)) (
          entry_and "name" (str "f")
            (entry_and "time" (dict (entry_and "1.0" (str "2020") no_entries)) no_entries))));
  keep = λ u v w. w;
}

abbrev npm_found : String × NpmInfo
npm_found = (
  "releases/1.0",
  record {
    base = record {
      url = "https://example.org/f.tgz";
      filename = some "f.tgz";
      version = "1.0";
      directory_extrinsic_metadata =
          record { format = "replicate-npm-package-json"; metadata = "{}"; discovery_date = none }
          ∷ [];
      checksums = ("sha1", hex "sha1") ∷ [];
      manifest = some "date 2020\nname f\nshasum sha1\nurl https://example.org/f.tgz\nversion 1.0";
    };
    raw_info = npm_version;
    package_name = "f";
    date = some "2020";
    shasum = "sha1";
  },
)

npm_run :
    Npm.get_package_info sample_host npm_cache "https://replicate.npmjs.com/f/" "1.0" 0
    ≡ (ok npm_found, 0)
unfolding Npm.get_package_info effects cached_method swh_loader_core.Forges.Json.item
    swh_loader_core.Forges.Json.str_item swh_loader_core.Forges.Json.as_optional
    swh_loader_core.Forges.Text.last_part swh_loader_core.Forges.Text.has_char
npm_run = refl

npm_lines : AreLines npm_found.1
unfolding swh_loader_core.Forges.Text.has_char
npm_lines = record { date_line = refl; name_line = refl; shasum_line = refl; url_line = refl }

same_manifest_same_archive_example :
    Post
      (λ artifacts x. HasDigest sample_web "https://example.org/f.tgz" "sha1" "sha1" artifacts)
      Any
      (download_package sample_web npm_found.1.base "/tmp" 0)
same_manifest_same_archive_example =
    same_manifest_same_archive sample_host sample_web npm_cache "https://replicate.npmjs.com/f/"
      "https://replicate.npmjs.com/f/" "1.0" "1.0" 0 0 0 0 npm_found npm_found npm_run npm_run
      npm_lines npm_lines refl "/tmp" 0

abbrev sample_npm : NpmInfo
sample_npm = record {
  base = record {
    url = "https://example.org/f.tgz";
    filename = some "f.tgz";
    version = "1.0";
    directory_extrinsic_metadata = [];
    checksums = ("sha1", hex "a") ∷ [];
    manifest = some "date 2020\nname f\nshasum a\nurl https://example.org/f.tgz\nversion 1.0";
  };
  raw_info = null;
  package_name = "f";
  date = some "2020";
  shasum = "a";
}

-- The same package with other metadata.
abbrev other_npm : NpmInfo
other_npm = record sample_npm { raw_info = str "other" }

sample_npm-IsListed : IsListed sample_npm
unfolding manifest swh_loader_core.Forges.Text.has_char
sample_npm-IsListed = record {
  has_manifest = refl;
  date_line = refl;
  name_line = refl;
  shasum_line = refl;
  url_line = refl;
  date_is_known = λ e. absurd (cc ((string_eq.beq_iff "2020" "None").1 (some-injective _ _ e)));
}

other_npm-IsListed : IsListed other_npm
unfolding manifest swh_loader_core.Forges.Text.has_char
other_npm-IsListed = record {
  has_manifest = refl;
  date_line = refl;
  name_line = refl;
  shasum_line = refl;
  url_line = refl;
  date_is_known = λ e. absurd (cc ((string_eq.beq_iff "2020" "None").1 (some-injective _ _ e)));
}

same_manifest_same_release_example :
    (sample_npm.shasum ≡ other_npm.shasum)
    × (build_release sample_host (λ p. give []) "f" (λ t. t) sample_npm "/tmp/f" "d" 0
        ≡ build_release sample_host (λ p. give []) "f" (λ t. t) other_npm "/tmp/f" "d" 0)
same_manifest_same_release_example =
    same_manifest_same_release sample_host (λ p. give []) "f" (λ t. t) sample_npm other_npm
      sample_npm-IsListed other_npm-IsListed refl "/tmp/f" "d" 0

abbrev sdist : String → PypiInfo
sdist filename = record {
  base = record sample_npm.base { filename = some filename };
  raw_info = null;
  name = "f";
  comment_text = none;
  sha256 = "a";
  upload_time = "2020";
}

sdist-HasFile : HasFile (sdist "f.tgz") × (HasFile (sdist "f.zip") × Unit {0})
sdist-HasFile = (
  record { filename = "f.tgz"; is_filename = refl; is_full = refl },
  (record { filename = "f.zip"; is_filename = refl; is_full = refl }, tt),
)

branch_names-Different_example :
    Different (names (Pypi.branch_names "1.0" (sdist "f.tgz" ∷ sdist "f.zip" ∷ [])))
    × (map
          (λ (b : String × PypiInfo). b.1)
          (Pypi.branch_names "1.0" (sdist "f.tgz" ∷ sdist "f.zip" ∷ []))
        ≡ sdist "f.tgz" ∷ sdist "f.zip" ∷ [])
branch_names-Different_example =
    branch_names-Different "1.0" (sdist "f.tgz" ∷ sdist "f.zip" ∷ []) sdist-HasFile
      (refl, (refl, tt))

abbrev sample_artifact : Json
sample_artifact = dict (
    entry_and "filename" (str "f.crate") (
      entry_and "checksums" (dict (entry_and "sha256" (str "sha256") no_entries))
        (entry_and "url" (str "https://example.org/f.crate") no_entries)))

-- The API was asked before.
abbrev answered : Cache ℕ String (Dict String Json)
answered = record {
  look = λ u w. some (("1.0", dict (entry_and "updated_at" (str "2020") no_entries)) ∷ []);
  keep = λ u v w. w;
}

abbrev crate_found : String × CratesInfo
crate_found = (
  "releases/1.0/f.crate",
  record {
    base = record {
      url = "https://example.org/f.crate";
      filename = some "f.crate";
      version = "1.0";
      directory_extrinsic_metadata =
          record { format = "crates-package-json"; metadata = "{}"; discovery_date = none } ∷ [];
      checksums = ("sha256", hex "sha256") ∷ [];
      manifest =
          some
            "name \nshasum sha256\nurl https://example.org/f.crate\nversion 1.0\nlast_update 2020";
    };
    name = "";
    sha256 = "sha256";
    last_update = 7;
  },
)

crate_run :
    Crates.get_package_info sample_host
      (λ t. "2020")
      (λ s. give 7)
      answered
      "https://crates.io/crates/f"
      (("1.0", sample_artifact) ∷ [])
      "1.0"
      0
    ≡ (ok crate_found, 0)
unfolding Crates.get_package_info effects cached_method swh_loader_core.Forges.Json.present
    swh_loader_core.Forges.Json.str_item Crates.manifest swh_loader_core.Forges.Text.last_part
    swh_loader_core.Forges.Text.has_char
crate_run = refl

one-IsLine : IsLine "sha256" × IsLine ""
unfolding swh_loader_core.Forges.Text.has_char
one-IsLine = (refl, refl)

same_manifest_same_crate_example :
    Post
      (λ artifacts x.
        HasDigest sample_web "https://example.org/f.crate" "sha256" "sha256" artifacts)
      Any
      (download_package sample_web crate_found.1.base "/tmp" 0)
same_manifest_same_crate_example =
    same_manifest_same_crate sample_host sample_web (λ t. "2020") (λ s. give 7) answered
      "https://crates.io/crates/f" "https://crates.io/crates/f" (("1.0", sample_artifact) ∷ [])
      (("1.0", sample_artifact) ∷ []) "1.0" "1.0" 0 0 0 0 crate_found crate_found crate_run
      crate_run one-IsLine.1 one-IsLine.1 one-IsLine.0 one-IsLine.0 refl "/tmp" 0

plain_pair : PlainPair ("sha256", "ab")
unfolding swh_loader_core.Forges.Text.has_char
plain_pair = (
  record { no_quote = refl; no_bracket = refl; no_blank = refl; no_equals = refl },
  record { no_quote = refl; no_bracket = refl; no_blank = refl; no_equals = refl },
)

parse-print_checksums_example :
    parse_checksums {W = ℕ} (print_checksums ("sha256", "ab") (("sha256", "ab") ∷ [])) 0
    ≡ (ok (with_pairs (("sha256", "ab") ∷ ("sha256", "ab") ∷ []) []), 0)
parse-print_checksums_example =
    parse-print_checksums ("sha256", "ab") (("sha256", "ab") ∷ []) 0 plain_pair (plain_pair, tt)
