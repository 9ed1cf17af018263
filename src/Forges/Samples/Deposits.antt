-- ===== src/Forges/Samples/Deposits.antt =====
-- package/deposit/loader.py at a small deposit.
use swh_loader_core.Prelude.{
  ℕ, String, ◌≡◌, refl, true, false, none, some, List, [], ◌∷◌, length, Different, string_eq,
}
use swh_loader_core.Effects.{ok}
use swh_loader_core.Effects.Hoare.{Post, Any}
use swh_loader_core.Model.{release, target_of, Snapshot, TaskResult}
use swh_loader_core.Samples.{give, sample_config, sample_identifiers}
use swh_loader_core.Forges.Deposit.Branches.{Unicode, Names, generate_all}
use swh_loader_core.Forges.Deposit.Unique.{generate_all-Different}
use swh_loader_core.Forges.Deposit.Visit.{choose_update}
use swh_loader_core.Forges.Deposit.Report.{Honest, choose_update-Honest}

abbrev plain : Unicode
plain = record { lower = λ s. "v"; is_word = λ c. true; is_space = λ c. false }

generate_all-Different_example :
    (issued : List String) × ((final : Names) × ((generate_all plain ("V" ∷ "v" ∷ []) []
          ≡ (ok issued, final))
        × ((length issued ≡ 2) × Different issued)))
generate_all-Different_example = generate_all-Different plain ("V" ∷ "v" ∷ []) [] (refl, (refl, tt))

abbrev sample_snapshot : Snapshot
sample_snapshot = record { id = "s"; branches = ("deposit/v", some (target_of release "r")) ∷ [] }

abbrev sample_result : TaskResult
sample_result = record { status = "eventful"; error = none; snapshot_id = some "s" }

choose_update-Honest_example :
    Post
      (λ u v.
        Honest {W = ℕ} sample_identifiers sample_config
          (give "v")
          (λ w. ("v", "deposit/v") ∷ [])
          (λ i. give none)
          "full"
          []
          sample_result
          (some sample_snapshot)
          u)
      Any
      (choose_update {W = ℕ} sample_identifiers sample_config
        (give "v")
        (λ w. ("v", "deposit/v") ∷ [])
        (λ i. give none)
        "full"
        []
        sample_result
        (some sample_snapshot)
        0)
choose_update-Honest_example =
    choose_update-Honest {W = ℕ} sample_identifiers sample_config (give "v")
      (λ w. ("v", "deposit/v") ∷ []) (λ i. give none) "full" [] sample_result (some sample_snapshot)
      0
