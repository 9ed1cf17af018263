-- ===== src/Forges/Samples/Sources.antt =====
-- package/debian/loader.py at a small source package.
use swh_loader_core.Prelude.{ℕ, ◌≡◌, none, [], ◌∷◌}
use swh_loader_core.Forges.Json.{null}
use swh_loader_core.Forges.Debian.{DebianFile, DebianInfo, dsc_files, dsc_information}
use swh_loader_core.Forges.Debian.Files.{dsc_outcome, dsc_information_lem}

abbrev sample_dsc : DebianFile
sample_dsc = record {
  name = "f.dsc";
  size = 1;
  uri = "https://example.org/f.dsc";
  sha256 = "sha256";
  md5sum = "";
  sha1 = "";
  sha512 = "";
}

abbrev sample_source : DebianInfo
sample_source = record {
  base = record {
    url = "deb://example.org/f";
    filename = none;
    version = "stable/main/1.0";
    directory_extrinsic_metadata = [];
    checksums = [];
    manifest = none;
  };
  raw_info = null;
  files = ("f.tgz", record sample_dsc { name = "f.tgz" }) ∷ ("f.dsc", sample_dsc) ∷ [];
  name = "f";
  intrinsic_version = "1.0";
}

dsc_information_lem_example :
    dsc_information {W = ℕ} sample_source 0 ≡ (dsc_outcome (dsc_files sample_source.files), 0)
dsc_information_lem_example = dsc_information_lem sample_source 0
