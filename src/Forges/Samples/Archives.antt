-- ===== src/Forges/Samples/Archives.antt =====
-- The loaders for Maven and for Go modules at small lists of artifacts.
use swh_loader_core.Prelude.{
  ℕ, String, Bool, false, ◌≡◌, refl, Option, none, some, List, [], ◌∷◌, All, string_eq,
}
use swh_loader_core.Effects.{ok, effects}
use swh_loader_core.Core.Utils.{cached_method}
use swh_loader_core.Forges.Maven.{Artifact, base_urls, choose_base_url}
use swh_loader_core.Forges.Maven.Instance.{choose_base_url_sound}
use swh_loader_core.Effects.Hoare.{Post, Any}
use swh_loader_core.Forges.Json.{Cache}
use swh_loader_core.Forges.Golang.{get_versions}
use swh_loader_core.Forges.Golang.Versions.{Complete, default_version_listed}
use swh_loader_core.Forges.Samples.{sample_host}

abbrev jar : String → Artifact
jar version = record {
  time = "2020";
  url = "https://example.org/m/f.jar";
  filename = none;
  gid = "g";
  aid = "f";
  version = version;
  base_url = "https://example.org/m/";
}

abbrev two_jars : List Artifact
two_jars = jar "1" ∷ jar "2" ∷ []

abbrev the_url : Option String
the_url = some "https://example.org/m/"

one_instance : choose_base_url two_jars ≡ ok the_url
unfolding choose_base_url base_urls
one_instance = refl

choose_base_url_sound_example :
    ((url : String) → the_url ≡ some url → All (λ jar. jar.base_url ≡ url) two_jars)
    × (the_url ≡ none → two_jars ≡ [])
choose_base_url_sound_example = choose_base_url_sound two_jars the_url one_instance

-- The proxy lists one version, and the default version is not among them.
abbrev listed_cache : Cache ℕ (Unit {0}) (List String)
listed_cache = record { look = λ k w. some ("v1.0.0" ∷ []); keep = λ k v w. w }

abbrev default_cache : Cache ℕ (Unit {0}) String
default_cache = record { look = λ k w. some "v0.0.0-dev"; keep = λ k v w. w }

abbrev never_newer : String → String → Bool
never_newer v w = false

default_version_listed_example :
    Post
      (λ versions v.
        Complete sample_host
          (λ e. false)
          never_newer
          "https://example.org/m"
          listed_cache
          default_cache
          versions)
      Any
      (get_versions sample_host
        (λ e. false)
        never_newer
        "https://example.org/m"
        listed_cache
        default_cache
        0)
default_version_listed_example =
    default_version_listed sample_host (λ e. false) never_newer "https://example.org/m" listed_cache
      default_cache 0

one_added :
    get_versions sample_host
      (λ e. false)
      never_newer
      "https://example.org/m"
      listed_cache
      default_cache
      0
    ≡ (ok ("v1.0.0" ∷ "v0.0.0-dev" ∷ []), 0)
unfolding get_versions cached_method effects
one_added = refl
