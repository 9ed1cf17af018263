-- ===== src/Forges/Golang/Versions.antt =====
-- package/golang/loader.py: the default version is among the versions.
use swh_loader_core.Prelude.{
  String, refl, Bool, List, [], ◌∷◌, ◌++◌, contains, contains→Within, Within, Within-append_left,
  Within-append_right, inl, string_eq,
}
use swh_loader_core.Effects.{Exception, Exec, modify}
use swh_loader_core.Effects.Hoare.{
  Post, Triple, Any, Returned, Triple-Returned, Triple-bind, Triple-pure, Triple-elim,
}
use swh_loader_core.Forges.Json.{Cache}
use swh_loader_core.Forges.Host.{Host}
use swh_loader_core.Forges.Golang.{listed_versions, get_default_version, with_default, get_versions}

module _ {W : Type 0} (host : Host W) (is_json_error : Exception → Bool)
    (newer : String → String → Bool) (url : String)
    (versions_cache : Cache W (Unit {0}) (List String))
    (default_cache : Cache W (Unit {0}) String) where
  abbrev listed : Exec W (List String)
  listed = listed_versions host is_json_error newer url versions_cache default_cache

  abbrev default : Exec W String
  default = get_default_version host is_json_error newer url versions_cache default_cache

  -- What get_versions gives for a list and a default version.
  pub record Complete (versions : List String) : Type 0 where
    pub default_version : String
    pub is_default : Returned default default_version
    pub is_listed : Within default_version versions
    pub found : List String
    pub is_found : Returned listed found
    pub keeps : (v : String) → Within v found → Within v versions

  with_default-Complete :
      (versions : List String) (default_version : String)
      → Triple
          (λ w. (Unit {0} × Returned listed versions) × Returned default default_version)
          (with_default host is_json_error newer url versions_cache default_cache versions
            default_version)
          (λ vs w. Complete vs)
          Any
  unfolding with_default modify
  with_default-Complete versions default_version =
      Triple-elim (contains versions default_version)
        (λ e. Triple-pure versions λ w p. record {
          default_version = default_version;
          is_default = p.1;
          is_listed = contains→Within versions default_version e;
          found = versions;
          is_found = p.0.1;
          keeps = λ v h. h;
        })
        (λ e.
          Triple-bind
            {Q = λ u w. (Unit {0} × Returned listed versions) × Returned default default_version}
            (record { run = λ w p. p })
            (λ u. Triple-pure (versions ++ default_version ∷ []) λ w p. record {
              default_version = default_version;
              is_default = p.1;
              is_listed =
                  Within-append_right default_version versions (default_version ∷ []) (inl refl);
              found = versions;
              is_found = p.0.1;
              keeps = λ v h. Within-append_left v versions (default_version ∷ []) h;
            }))

  -- If get_versions returns, its versions contain the default version, which get_default_version has returned, and every
  -- version that the proxy lists.
  pub default_version_listed :
      (w : W)
      → Post
          (λ versions v. Complete versions)
          Any
          (get_versions host is_json_error newer url versions_cache default_cache w)
  unfolding get_versions
  default_version_listed w =
      (Triple-bind (Triple-Returned listed)
          λ versions. Triple-bind (Triple-Returned default) (with_default-Complete versions)).run
        w tt
