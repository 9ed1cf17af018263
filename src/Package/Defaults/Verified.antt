-- ===== src/Package/Defaults/Verified.antt =====
-- package/loader.py: what download_package returns has the checksums of the package.
use swh_loader_core.Prelude.{
  String, ◌≡◌, refl, Bool, true, false, if◌then◌else◌, arith, string_eq, List, [], ◌∷◌, Dict,
  Option, some,
}
use mathlib.Core.Path.{subst}
use swh_loader_core.Effects.{Exec, Exception, Result, ok, raise, no_fuel, content_decoding_error}
use swh_loader_core.Effects.Hoare.{
  Post, Triple, Any, Triple-pure, Triple-throw, Triple-bind, Triple-try_base,
}
use swh_loader_core.Core.Utils.Download.{
  Digest, hex, size, digest_beq, Web, Response, response_data, Extrinsic, download,
}
use swh_loader_core.Core.Utils.Download.Verified.{all_match, download-Verified}
use swh_loader_core.Package.Info.{PackageInfo}
use swh_loader_core.Package.Defaults.{identity, on_decoding_error, fetch_package, download_package}

-- The downloaded file is a response at the URL that has all the hashes.
pub record Fetched {W : Type 0} (web : Web W) (url : String) (hashes : Dict String Digest)
    (ext : Extrinsic) : Type 0 where
  pub headers : Dict String String
  pub before : W
  pub after : W
  pub response : Response
  pub answered : web.get url headers before ≡ (ok response, after)
  pub has_hashes : all_match web (response_data response.chunks) hashes ≡ true
  pub reports_url : ext.url ≡ response.url

module _ {W : Type 0} (web : Web W) where
  Fetched-Post :
      (url : String) (hashes : Dict String Digest) (headers : Dict String String) (w : W)
      (r : Result (String × Extrinsic) × W)
      → Post
          (λ a w'.
            (response : Response) × (((v : W) × (web.get url headers w ≡ (ok response, v)))
              × ((all_match web (response_data response.chunks) hashes ≡ true)
                  × ((a.1.url ≡ response.url)
                      × (a.1.length
                          ≡ some (web.digest "length" (response_data response.chunks)))))))
          Any
          r
      → Post (λ a w'. Fetched web url hashes a.1) Any r
  Fetched-Post url hashes headers w (ok a, v) h = record {
    headers = headers;
    before = w;
    after = h.1.0.0;
    response = h.0;
    answered = h.1.0.1;
    has_hashes = h.1.1.0;
    reports_url = h.1.1.1.0;
  }
  Fetched-Post url hashes headers w (raise e, v) h = tt
  Fetched-Post url hashes headers w (no_fuel, v) h = tt

  pub download-Fetched :
      {P : W → Type 0} (url dest : String) (hashes : Dict String Digest) (filename : Option String)
      (headers : Dict String String)
      → Triple P
          (download web url dest hashes filename headers)
          (λ a w. Fetched web url hashes a.1)
          Any
  download-Fetched url dest hashes filename headers = record {
    run = λ w p.
        Fetched-Post url hashes headers w (download web url dest hashes filename headers w)
          (download-Verified web url dest hashes filename headers w);
  }

  -- One file, with the hashes.
  abbrev pub OneFetched : String → Dict String Digest → List (String × Extrinsic) → Type 0
  OneFetched url hashes artifacts =
      (path : String) × ((ext : Extrinsic) × ((artifacts ≡ (path, ext) ∷ [])
          × Fetched web url hashes ext))

  -- The only file of the package has the digest under the algorithm.
  pub record HasDigest (url algo digest : String) (artifacts : List (String × Extrinsic))
      : Type 0 where
    pub path : String
    pub ext : Extrinsic
    pub one_file : artifacts ≡ (path, ext) ∷ []
    pub headers : Dict String String
    pub before : W
    pub after : W
    pub response : Response
    pub answered : web.get url headers before ≡ (ok response, after)
    pub digest_of_file : web.digest algo (response_data response.chunks) ≡ hex digest

  pub digest_beq_hex :
      (d : Digest) (h : String) (b : Bool)
      → (if digest_beq d (hex h) then b else false) ≡ true
      → d ≡ hex h
  digest_beq_hex (hex a) h b e = ground (arith, string_eq.beq_iff a h)
  digest_beq_hex (size n) h b e = absurd (cc e)

  -- A package with one checksum.
  pub OneFetched→HasDigest :
      (url algo digest : String) (artifacts : List (String × Extrinsic))
      → OneFetched url ((algo, hex digest) ∷ []) artifacts
      → HasDigest url algo digest artifacts
  OneFetched→HasDigest url algo digest artifacts (path, (ext, (e, f))) = record {
    path = path;
    ext = ext;
    one_file = e;
    headers = f.headers;
    before = f.before;
    after = f.after;
    response = f.response;
    answered = f.answered;
    digest_of_file =
        digest_beq_hex (web.digest algo (response_data f.response.chunks)) digest _ f.has_hashes;
  }

  fetch_package-Fetched :
      {P : W → Type 0} (p_info : PackageInfo) (tmpdir : String) (headers : Dict String String)
      → Triple P
          (fetch_package web p_info tmpdir headers)
          (λ artifacts w. OneFetched p_info.url p_info.checksums artifacts)
          Any
  unfolding fetch_package
  fetch_package-Fetched p_info tmpdir headers =
      Triple-bind (download-Fetched p_info.url tmpdir p_info.checksums p_info.filename headers)
        (λ a. Triple-pure _ (λ w f. (a.0, (a.1, (refl, f)))))

  on_decoding_error_Triple :
      {A : Type 0} {P : W → Type 0} {Q : A → W → Type 0} (retry : Exec W A)
      → Triple P retry Q Any
      → (e : Exception) → Triple P (on_decoding_error retry e) Q Any
  on_decoding_error_Triple retry t content_decoding_error = t
  on_decoding_error_Triple retry t e = Triple-throw _ (λ w p. tt)

  -- If the default download_package returns, it returns one file, which is a response at the URL of the
  -- package, and its bytes have every checksum of the package; this holds for the second attempt after
  -- a ContentDecodingError too.
  pub download_package-Fetched :
      (p_info : PackageInfo) (tmpdir : String) (w : W)
      → Post
          (λ artifacts v. OneFetched p_info.url p_info.checksums artifacts)
          Any
          (download_package web p_info tmpdir w)
  unfolding download_package
  download_package-Fetched p_info tmpdir w =
      (Triple-try_base {P = λ _. Unit {0}} (fetch_package-Fetched p_info tmpdir [])
          (on_decoding_error_Triple _ (fetch_package-Fetched p_info tmpdir identity))).run
        w tt

  HasDigest-Post :
      (url algo digest : String) (r : Result (List (String × Extrinsic)) × W)
      → Post (λ artifacts v. OneFetched url ((algo, hex digest) ∷ []) artifacts) Any r
      → Post (λ artifacts v. HasDigest url algo digest artifacts) Any r
  HasDigest-Post url algo digest (ok a, v) h = OneFetched→HasDigest url algo digest a h
  HasDigest-Post url algo digest (raise e, v) h = tt
  HasDigest-Post url algo digest (no_fuel, v) h = tt

  pub download_package-HasDigest :
      (p_info : PackageInfo) (algo digest tmpdir : String) (w : W)
      → p_info.checksums ≡ (algo, hex digest) ∷ []
      → Post
          (λ artifacts v. HasDigest p_info.url algo digest artifacts)
          Any
          (download_package web p_info tmpdir w)
  download_package-HasDigest p_info algo digest tmpdir w e =
      HasDigest-Post p_info.url algo digest _ (
        subst
          (λ c.
            Post (λ artifacts v. OneFetched p_info.url c artifacts) Any
              (download_package web p_info tmpdir w))
          e (download_package-Fetched p_info tmpdir w))
