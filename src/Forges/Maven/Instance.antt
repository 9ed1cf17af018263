-- ===== src/Forges/Maven/Instance.antt =====
-- package/maven/loader.py: all the artifacts of a loader are of one Maven instance.
use mathlib.Core.Path.{subst}
use swh_loader_core.Prelude.{
  String, ◌≡◌, refl, ◌∙◌, Option, none, some, List, [], ◌∷◌, All, Within, Within-add,
  Within-add_self, inl, inr, string_eq,
}
use swh_loader_core.Effects.{ok}
use swh_loader_core.Forges.Maven.{Artifact, base_urls, only_url, choose_base_url}

each_within :
    (P : String → Type 0) (artifacts : List Artifact)
    → ((url : String) → Within url (base_urls artifacts) → P url)
    → All (λ jar. P jar.base_url) artifacts
unfolding base_urls
each_within P [] h = tt
each_within P (jar ∷ artifacts) h = (
  h jar.base_url (Within-add_self jar.base_url (base_urls artifacts)),
  each_within P artifacts (λ url w. h url (Within-add url jar.base_url (base_urls artifacts) w)),
)

no_urls : (artifacts : List Artifact) → base_urls artifacts ≡ [] → artifacts ≡ []
unfolding base_urls
no_urls [] e = refl
no_urls (jar ∷ artifacts) e =
    absurd
      (subst (λ l. Within jar.base_url l) e (Within-add_self jar.base_url (base_urls artifacts)))

-- The constructor takes artifacts of one Maven instance only: the base URL that it keeps is that of every
-- artifact, and it keeps none only if there are no artifacts.
pub choose_base_url_sound :
    (artifacts : List Artifact) (found : Option String)
    → choose_base_url artifacts ≡ ok found
    → ((url : String) → found ≡ some url → All (λ jar. jar.base_url ≡ url) artifacts)
      × (found ≡ none → artifacts ≡ [])
unfolding choose_base_url
choose_base_url_sound artifacts found e = by_urls (base_urls artifacts) refl e
  where
    by_urls :
        (urls : List String)
        → base_urls artifacts ≡ urls
        → only_url urls ≡ ok found
        → ((url : String) → found ≡ some url → All (λ jar. jar.base_url ≡ url) artifacts)
          × (found ≡ none → artifacts ≡ [])
    by_urls [] same h = ((λ url f. absurd (cc (h, f))), (λ f. no_urls artifacts same))
    by_urls (one ∷ []) same h = (
      (λ url f.
          each_within (λ u. u ≡ url) artifacts
            λ u w.
              let is_one : u ≡ one = elim (subst (λ l. Within u l) same w) [
                | inl e ↦ e
                | inr x ↦ absurd x
              ] in
              is_one ∙ cc (h, f)),
      (λ f. absurd (cc (h, f))),
    )
    by_urls (one ∷ other ∷ urls) same h = absurd (cc h)
