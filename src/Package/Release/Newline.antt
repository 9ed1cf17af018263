-- ===== src/Package/Release/Newline.antt =====
-- package/loader.py: the message of a release that rev2rel makes.
use Prim.Native.String
use text.Mathlib.TextLemmas.{nil-append, cons-append}
use swh_loader_core.Prelude.{String, ◌≡◌, refl, ap, ◌∙◌, true, some, Bool-cases, inl, inr, arith}
use swh_loader_core.Model.{truthy, Revision}
use swh_loader_core.Package.Release.{ends_with_newline, terminated, rev2rel}

pub ends_with_newline-append : (s : String) → ends_with_newline (String.◌++◌ s "\n") ≡ true
ends_with_newline-append String.[] = refl
ends_with_newline-append (String.◌∷◌ c String.[]) =
    ap ends_with_newline
      (cons-append c "" "\n" ∙ ap (λ (t : String). String.◌∷◌ c t) (nil-append "\n"))
ends_with_newline-append (String.◌∷◌ c (String.◌∷◌ d s)) =
    rw (cons-append c (String.◌∷◌ d s) "\n", cons-append d s "\n")
      (rw (cons-append d s "\n") at (ends_with_newline-append (String.◌∷◌ d s)))

-- A message that is neither missing nor empty ends with a newline in the release that rev2rel makes, and
-- keeps its text if it ended with one before.
pub rev2rel-message :
    (rev : Revision) (version m : String)
    → rev.message ≡ some m
    → truthy (some m) ≡ true
    → (t : String) × (((rev2rel rev version).message ≡ some t)
        × ((ends_with_newline t ≡ true) × (ends_with_newline m ≡ true → t ≡ m)))
unfolding rev2rel
rev2rel-message rev version m h full = elim (Bool-cases (ends_with_newline m)) [
  | inl e ↦ (m, (ap terminated h ∙ ground (arith, full, e), (e, λ _. refl)))
  | inr e ↦ (
    String.◌++◌ m "\n",
    (
      ap terminated h ∙ ground (arith, full, e),
      (ends_with_newline-append m, λ f. absurd (cc (e, f))),
    ),
  )
]
