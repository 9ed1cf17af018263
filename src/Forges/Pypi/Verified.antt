-- ===== src/Forges/Pypi/Verified.antt =====
-- package/pypi/loader.py: the archive that is downloaded has the hash that the ExtID of its package states.
use swh_loader_core.Prelude.{String, ◌≡◌, refl, some, List, [], ◌∷◌, All}
use swh_loader_core.Effects.{Result, ok, raise, no_fuel}
use swh_loader_core.Effects.Hoare.{
  Post, Triple, Any, Returned, Triple-Returned, Triple-bind, Triple-pure, Triple-elim, Triple-skip,
  Triple-frame,
}
use swh_loader_core.Core.Utils.Download.{Web, hex}
use swh_loader_core.Package.Defaults.{download_package}
use swh_loader_core.Package.Defaults.Verified.{HasDigest, download_package-HasDigest}
use swh_loader_core.Forges.Json.{Json, Cache}
use swh_loader_core.Forges.Host.{Host}
use swh_loader_core.Forges.Pypi.{
  PypiInfo, extid, from_metadata, collect_sdists, with_names, branch_names, get_package_info,
}

-- The package is checked against the hash that its ExtID states, and nothing else.
abbrev pub IsChecked : PypiInfo → Type 0
IsChecked p_info = p_info.base.checksums ≡ ("sha256", hex p_info.sha256) ∷ []

module _ {W : Type 0} (host : Host W) where
  -- A package of the version, as get_package_info makes it.
  abbrev pub Good : (version : String) → PypiInfo → Type 0
  Good version p_info = IsChecked p_info × (p_info.base.version ≡ version)

  from_metadata-Good :
      (metadata : Json) (name version : String)
      → Triple
          (λ w. Unit {0})
          (from_metadata host metadata name version)
          (λ p_info w. Good version p_info)
          Any
  unfolding from_metadata
  from_metadata-Good metadata name version = Triple-skip _ λ url. Triple-skip _ λ filename.
      Triple-skip _ λ comment. Triple-skip _ λ digests.
        Triple-skip _ λ sha256. Triple-skip _ λ upload_time. Triple-pure _ (λ w p. (refl, refl))

  collect_sdists-Good :
      (info_json : Json) (version : String) (metas : List Json)
      → Triple
          (λ w. Unit {0})
          (collect_sdists host info_json version metas)
          (λ infos w. All (Good version) infos)
          Any
  unfolding collect_sdists
  collect_sdists-Good info_json version [] = Triple-pure [] (λ w p. tt)
  collect_sdists-Good info_json version (meta ∷ metas) =
      let rest = collect_sdists-Good info_json version metas in
      Triple-skip _ λ wanted.
        Triple-elim wanted
          (λ e. Triple-skip _ λ project. Triple-skip _ λ name.
            Triple-bind {Q = λ p_info w. Good version p_info} (from_metadata-Good meta name version)
              λ p_info.
                Triple-bind {Q = λ infos w. Good version p_info × All (Good version) infos}
                  (Triple-frame rest) (λ more. Triple-pure _ (λ w p. p)))
          (λ e. rest)

  Good-named :
      (version : String) (infos : List PypiInfo)
      → All (Good version) infos
      → All (λ e. Good version e.1) (with_names version infos)
  unfolding with_names
  Good-named version [] h = tt
  Good-named version (p_info ∷ infos) (g, h) = (g, Good-named version infos h)

  branch_names-Good :
      (version : String) (infos : List PypiInfo)
      → All (Good version) infos
      → All (λ e. Good version e.1) (branch_names version infos)
  unfolding branch_names with_names
  branch_names-Good version [] h = tt
  branch_names-Good version (p_info ∷ []) h = h
  branch_names-Good version (p ∷ q ∷ infos) h = Good-named version (p ∷ q ∷ infos) h

  get_package_info-Good :
      (cache : Cache W String Json) (provider_url version : String)
      → Triple
          (λ w. Unit {0})
          (get_package_info host cache provider_url version)
          (λ infos w. All (λ e. Good version e.1) infos)
          Any
  unfolding get_package_info
  get_package_info-Good cache provider_url version = Triple-skip _ λ info_json.
      Triple-skip _ λ releases. Triple-skip _ λ metas_item. Triple-skip _ λ metas.
        Triple-bind (collect_sdists-Good info_json version metas)
          (λ infos. Triple-pure _ (λ w h. branch_names-Good version infos h))

module _ {W : Type 0} (host : Host W) (web : Web W) where
  -- The extid method, if it returns, gives an ExtID of PyPI, whose bytes are those of the text `hash`.
  abbrev pub HasExtid : PypiInfo → (hash : String) → Type 0
  HasExtid p_info hash =
      (w : W)
      → Post
          (λ x v.
            (id : String) × (x
              ≡ some (record { extid_type = "pypi-archive-sha256"; extid_version = 0; extid = id }))
            × Returned (host.hash_to_bytes hash) id)
          Any (extid host p_info w)

  -- Downloading the package gives one file, whose sha256 is that of the package's ExtID.
  abbrev pub DownloadsItsHash : PypiInfo → Type 0
  DownloadsItsHash p_info =
      (hash : String) × (HasExtid p_info hash
        × ((tmpdir : String) (w : W)
            → Post (λ artifacts v. HasDigest web p_info.base.url "sha256" hash artifacts) Any
                (download_package web p_info.base tmpdir w)))

  extid-HasExtid : (p_info : PypiInfo) → HasExtid p_info p_info.sha256
  unfolding extid
  extid-HasExtid p_info w =
      (Triple-bind (Triple-Returned {P = Unit {0}} (host.hash_to_bytes p_info.sha256))
          (λ id. Triple-pure _ (λ v p. (id, refl, p.1)))).run
        w tt

  -- Each package that get_package_info yields for a version has that version, and there is one hash of which
  -- the extid method makes the package's ExtID and which is the sha256 of what is downloaded: whenever
  -- download_package returns for the package, it returns one file, a response at the package's URL,
  -- with that sha256.
  pub get_package_info_verified :
      (cache : Cache W String Json) (provider_url version : String) (w : W)
      → Post
          (λ infos v. All (λ e. DownloadsItsHash e.1 × (e.1.base.version ≡ version)) infos)
          Any
          (get_package_info host cache provider_url version w)
  get_package_info_verified cache provider_url version w =
      all_Post _ ((get_package_info-Good host cache provider_url version).run w tt)
    where
      all_verified :
          (infos : List (String × PypiInfo))
          → All (λ e. Good host version e.1) infos
          → All (λ e. DownloadsItsHash e.1 × (e.1.base.version ≡ version)) infos
      all_verified [] h = tt
      all_verified ((n, p_info) ∷ infos) (g, h) = (
        (
          (
            p_info.sha256,
            (
              extid-HasExtid p_info,
              λ tmpdir v.
                  download_package-HasDigest web p_info.base "sha256" p_info.sha256 tmpdir v g.0,
            ),
          ),
          g.1,
        ),
        all_verified infos h,
      )

      all_Post :
          (r : Result (List (String × PypiInfo)) × W)
          → Post (λ infos v. All (λ e. Good host version e.1) infos) Any r
          → Post
              (λ infos v. All (λ e. DownloadsItsHash e.1 × (e.1.base.version ≡ version)) infos)
              Any
              r
      all_Post (ok infos, v) h = all_verified infos h
      all_Post (raise e, v) h = tt
      all_Post (no_fuel, v) h = tt
