-- ===== src/Core/Node/Init.antt =====
-- core/loader.py: NodeLoader.__init__, the arguments that it adds to BaseLoader's.
use swh_loader_core.Prelude.{
  String, ◌≡◌, ◌≢◌, refl, Bool, true, false, ◌||◌, Option, none, some, List, [], ◌∷◌, contains,
  string_eq, ◌==◌, Dict, ◌⊎◌, inl, inr,
}
use swh_loader_core.Effects.{Result, ok, raise, no_fuel, unsupported_checksum_layout}
use swh_loader_core.Core.Utils.Download.{Digest}

pub record NodeArgs : Type 0 where
  pub url : String
  pub checksums : Dict String Digest
  pub checksums_computation : Option String
  pub checksum_layout : Option String
  pub fallback_urls : Option (List String)

-- The attributes that the constructor sets.
pub record NodeConfig : Type 0 where
  pub checksums : Dict String Digest
  pub checksum_layout : String
  pub mirror_urls : List String
  pub standard_hashes : Dict String Digest

-- `checksum_layout` has priority over `checksums_computation`; the default is "standard".
abbrev pub choose_layout : Option String → Option String → String
choose_layout (some layout) computation = layout
choose_layout none (some computation) = computation
choose_layout none none = "standard"

abbrev or_empty : Option (List String) → List String
or_empty none = []
or_empty (some urls) = urls

abbrev checked_layout : NodeArgs → String → (supported is_standard : Bool) → Result NodeConfig
checked_layout args layout false is_standard = raise (unsupported_checksum_layout layout)
checked_layout args layout true is_standard = ok (record {
  checksums = args.checksums;
  checksum_layout = layout;
  mirror_urls = args.url ∷ or_empty args.fallback_urls;
  standard_hashes = elim is_standard [ true ↦ args.checksums | false ↦ [] ];
})

-- __init__
unfoldable pub node_init : NodeArgs → Result NodeConfig
node_init args =
    let layout = choose_layout args.checksum_layout args.checksums_computation in
    checked_layout args layout (contains ("nar" ∷ "standard" ∷ []) layout) (layout == "standard")

-- The hashes of the downloaded file are checked or those of the tree on disk, never both.
abbrev pub IsCoherent : NodeArgs → NodeConfig → Type 0
IsCoherent args config =
    ((config.checksum_layout ≡ "nar") × (config.standard_hashes ≡ []))
    ⊎ ((config.checksum_layout ≡ "standard") × (config.standard_hashes ≡ args.checksums))

-- The layout that the arguments ask for: `checksum_layout`, else `checksums_computation`, else "standard".
pub data Asks (args : NodeArgs) : String → Type 0 where
  by_layout : (layout : String) → args.checksum_layout ≡ some layout → Asks args layout
  by_computation :
      (layout : String)
      → args.checksum_layout ≡ none
      → args.checksums_computation ≡ some layout
      → Asks args layout
  by_default :
      args.checksum_layout ≡ none → args.checksums_computation ≡ none → Asks args "standard"

choose_layout-Asks :
    (args : NodeArgs) (l c : Option String)
    → args.checksum_layout ≡ l
    → args.checksums_computation ≡ c
    → Asks args (choose_layout l c)
choose_layout-Asks args (some layout) c el ec = by_layout layout el
choose_layout-Asks args none (some layout) el ec = by_computation layout el ec
choose_layout-Asks args none none el ec = by_default el ec

-- What the constructor promises for a layout: a coherent configuration with that layout and the URL first,
-- if it is one of the two, else an exception with that layout.
abbrev pub InitPost : NodeArgs → (layout : String) → Result NodeConfig → Type 0
InitPost args layout (ok config) =
    (config.checksum_layout ≡ layout)
    × (IsCoherent args config
        × ((urls : List String) × (config.mirror_urls ≡ args.url ∷ urls)
            × (config.checksums ≡ args.checksums)))
InitPost args layout (raise e) =
    (e ≡ unsupported_checksum_layout layout) × ((layout ≢ "nar") × (layout ≢ "standard"))
InitPost args layout no_fuel = ⊥

is_nar : (layout : String) → (layout == "nar") ≡ true → layout ≡ "nar"
is_nar layout e = (string_eq.beq_iff layout "nar").0 e

checked :
    (args : NodeArgs) (layout : String) (nar standard : Bool)
    → (layout == "nar") ≡ nar
    → (layout == "standard") ≡ standard
    → InitPost args layout (checked_layout args layout (nar || (standard || false)) standard)
checked args layout true true n s =
    (refl, (inr ((string_eq.beq_iff layout "standard").0 s, refl), (_, refl, refl)))
checked args layout true false n s = (refl, (inl (is_nar layout n, refl), (_, refl, refl)))
checked args layout false true n s =
    (refl, (inr ((string_eq.beq_iff layout "standard").0 s, refl), (_, refl, refl)))
checked args layout false false n s = (
  refl,
  (
    λ e. absurd (cc ((string_eq.beq_iff layout "nar").1 e, n)),
    λ e. absurd (cc ((string_eq.beq_iff layout "standard").1 e, s)),
  ),
)

-- For the layout that the arguments ask for (`checksum_layout`, else `checksums_computation`, else
-- "standard"), the constructor of NodeLoader returns a configuration with just that layout, in which
-- either the hashes of the tree on disk are to be checked and none of the download, or those of the
-- download are exactly the checksums given; or, if the layout is neither "nar" nor "standard", it raises
-- UnsupportedChecksumLayout with it.
pub node_init-IsCoherent :
    (args : NodeArgs)
    → (layout : String) × (Asks args layout × InitPost args layout (node_init args))
unfolding node_init
node_init-IsCoherent args = (
  choose_layout args.checksum_layout args.checksums_computation,
  (
    choose_layout-Asks args args.checksum_layout args.checksums_computation refl refl,
    checked args (choose_layout args.checksum_layout args.checksums_computation) _ _ refl refl,
  ),
)
