-- ===== src/Forges/Debian/Verified.antt =====
-- package/debian/loader.py: the files that download_package returns have the hashes of the package.
use swh_loader_core.Prelude.{String, ◌≡◌, some, Within, [], ◌∷◌, Dict, string_eq, if◌then◌else◌}
use swh_loader_core.Effects.{ok}
use swh_loader_core.Model.{truthy}
use swh_loader_core.Core.Utils.Download.{hex, Web, Response, response_data, Extrinsic}
use swh_loader_core.Package.Defaults.Verified.{Fetched}
use swh_loader_core.Forges.Debian.{DebianFile, dsc_hash, extrinsic_hashes}

module _ {W : Type 0} (web : Web W) where
  -- Each file has been fetched with its hashes, in order.
  abbrev pub AllFetched : Dict String DebianFile → Dict String Extrinsic → Type 0
  AllFetched [] [] = Unit
  AllFetched ((name, file) ∷ files) ((found_name, ext) ∷ found) =
      ((found_name ≡ name) × Fetched web file.uri (extrinsic_hashes file) ext)
      × AllFetched files found
  AllFetched _ _ = ⊥

  -- The algorithm of the hash that stands for the package.
  abbrev pub dsc_algo : DebianFile → String
  dsc_algo file =
      if truthy (some file.sha256)
      then "sha256"
      else if truthy (some file.sha1)
      then "sha1"
      else "md5"

  -- The file has been downloaded from its URL, with the hash that the ExtID of the package states.
  pub record DscFetched (name : String) (file : DebianFile) (found : Dict String Extrinsic)
      : Type 0 where
    pub ext : Extrinsic
    pub in_found : Within (name, ext) found
    pub before : W
    pub after : W
    pub headers : Dict String String
    pub response : Response
    pub answered : web.get file.uri headers before ≡ (ok response, after)
    pub digest_of_file :
        web.digest (dsc_algo file) (response_data response.chunks) ≡ hex (dsc_hash file)
