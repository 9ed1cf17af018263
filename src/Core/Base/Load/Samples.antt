-- ===== src/Core/Base/Load/Samples.antt =====
-- A loader that has as many rounds to go as the world counts.
use swh_loader_core.Prelude.{
  ℕ, zero, suc, ◌<◌, ◌≡◌, ap, Bool, true, false, none, some, List, [], arith,
}
use swh_loader_core.Effects.{Result, ok, effects, Exec}
use swh_loader_core.Effects.Hoare.{Post}
use swh_loader_core.Effects.Fuel.{Halts, Converges, Ends}
use swh_loader_core.Storage.{Logged, Call, call}
use swh_loader_core.Core.Base.Metadata.{ParentOrigins}
use swh_loader_core.Core.Base.Load.{Methods, load, round}
use swh_loader_core.Core.Base.Load.Protocol.{phase}
use swh_loader_core.Core.Base.Load.Order.{start, is_finished, is_settled, load_order}
use swh_loader_core.Core.Base.Load.Verdict.{Verdict, load-Verdict}
use swh_loader_core.Core.Base.Load.Termination.{MethodsHalt, StorageHalts, load_terminates}
use swh_loader_core.Samples.{done, give, quiet_storage, sample_config}

-- A round takes one off the count; at zero there is no more to fetch.
abbrev fetch : Exec ℕ Bool
fetch zero = (ok false, zero)
fetch (suc n) = (ok true, n)

abbrev counting_methods : Methods ℕ
counting_methods = record {
  pre_cleanup = done;
  prepare = done;
  fetch_data = fetch;
  process_data = give true;
  store_data = done;
  build_partial_snapshot = give none;
  visit_status = give "full";
  post_load = λ success. done;
  cleanup = done;
  load_status = give (record { status = "eventful"; error = none; snapshot_id = none });
  loaded_snapshot_id = λ w. some "snapshot";
  exception_text = λ e. "error";
}

abbrev pub no_parents : {W : Type 0} → ParentOrigins W
no_parents = record { get = λ w. none; set = λ p w. w }

load_order_example :
    Post
      (λ _ s. is_finished (phase s.calls) ≡ true)
      (λ _ s. is_settled (phase s.calls) ≡ true)
      (load sample_config counting_methods quiet_storage no_parents [] 5 (start 3))
load_order_example = load_order sample_config counting_methods quiet_storage no_parents [] 5 3

load-Verdict_example :
    Post
      (λ r s. Verdict sample_config counting_methods quiet_storage no_parents [] 5 r s.calls)
      (λ _ _. Unit)
      (load sample_config counting_methods quiet_storage no_parents [] 5 (start 3))
load-Verdict_example = load-Verdict sample_config counting_methods quiet_storage no_parents [] 5 3

fetch_halts : Halts fetch
fetch_halts = record { ends = fetch_ends }
  where
    fetch_ends : (w : ℕ) → Ends (fetch w)
    fetch_ends zero = tt
    fetch_ends (suc n) = tt

pub done_halts : {W : Type 0} → Halts (done {W = W})
done_halts = record { ends = λ w. tt }

pub give_halts : {W A : Type 0} (a : A) → Halts (give {W = W} a)
give_halts a = record { ends = λ w. tt }

methods_halt : MethodsHalt counting_methods
methods_halt = record {
  pre_cleanup = done_halts;
  prepare = done_halts;
  fetch_data = fetch_halts;
  process_data = give_halts true;
  store_data = done_halts;
  build_partial_snapshot = give_halts none;
  visit_status = give_halts "full";
  post_load = λ success. done_halts;
  cleanup = done_halts;
  load_status = give_halts _;
}

pub storage_halts : StorageHalts (quiet_storage {W = ℕ})
storage_halts = record {
  origin_add = λ o. done_halts;
  origin_visit_add = λ v. give_halts _;
  origin_visit_status_add = λ s. done_halts;
  snapshot_add = λ s. done_halts;
  metadata_authority_add = λ a. done_halts;
  metadata_fetcher_add = λ f. done_halts;
  raw_extrinsic_metadata_add = λ m. done_halts;
  flush = done_halts;
}

-- A round that asks for another has taken one off the count.
counts_down :
    (visit w : ℕ) (calls : List Call) (s' : Logged ℕ)
    → round sample_config counting_methods quiet_storage no_parents [] visit
        (record { world = w; calls = calls })
      ≡ (ok true, s')
    → s'.world < w
unfolding round effects call
counts_down visit zero calls s' h = absurd (cc)
counts_down visit (suc w) calls s' h =
    let same : w ≡ s'.world = ap (λ (r : Result Bool × Logged ℕ). r.1.world) h in omega arith

load_terminates_example :
    Converges (load sample_config counting_methods quiet_storage no_parents []) (start 3)
load_terminates_example =
    load_terminates sample_config counting_methods quiet_storage no_parents [] methods_halt
      storage_halts tt (λ w. w) (λ visit s s'. counts_down visit s.world s.calls s') 3
