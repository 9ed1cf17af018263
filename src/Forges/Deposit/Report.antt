-- ===== src/Forges/Deposit/Report.antt =====
-- package/deposit/loader.py: what finalize_visit tells the deposit server is so.
use swh_loader_core.Prelude.{
  String, ◌≡◌, ◌≢◌, refl, ap, ◌∙◌, true, false, Option, none, some, List, [], is_empty, lookup,
  string_eq, ◌==◌,
}
use swh_loader_core.Effects.{Exec, gets}
use swh_loader_core.Effects.Hoare.{
  Post, Triple, Any, Returned, Triple-Returned, Triple-bind, Triple-pure, Triple-throw,
  Triple-weaken, Triple-elim,
}
use swh_loader_core.Model.{Sha1Git, SnapshotBranch, Snapshot, Release, TaskResult, Identifiers}
use swh_loader_core.Core.Base.Init.{Config}
use swh_loader_core.Forges.Json.{present}
use swh_loader_core.Forges.Deposit.Branches.{Names, get_default_branch_name}
use swh_loader_core.Forges.Deposit.Client.{StatusUpdate}
use swh_loader_core.Forges.Deposit.Visit.{
  branch_target, failed_update, done_update, stored_update, release_update, branch_update,
  snapshot_update, choose_update,
}

module _ {W : Type 0} (identifiers : Identifiers) (config : Config)
    (default_version : Exec W String) (names : W → Names)
    (release_get : Sha1Git → Exec W (Option Release)) where
  -- The facts behind an update with status "done".
  pub record Success (r : TaskResult) (snapshot : Snapshot) (update : StatusUpdate) : Type 0 where
    pub version : String
    pub version_is_default : Returned default_version version
    pub branch_name : String
    pub world : W
    pub branch_of_version : lookup version (names world) ≡ some branch_name
    pub branch : Option SnapshotBranch
    pub branch_of_snapshot : lookup branch_name snapshot.branches ≡ some branch
    pub rel_id : Sha1Git
    pub target_of_branch : branch_target branch ≡ some rel_id
    pub release : Release
    pub release_in_storage : Returned (release_get rel_id) (some release)
    pub directory_id : Sha1Git
    pub target_of_release : release.target ≡ some directory_id
    pub snapshot_id : Sha1Git
    pub snapshot_of_result : r.snapshot_id ≡ some snapshot_id
    pub tells : update ≡ record {
      status = "done";
      errors = [];
      release_id = some (identifiers.hash_to_hex rel_id);
      directory_id = some (identifiers.hash_to_hex directory_id);
      snapshot_id = some snapshot_id;
      origin_url = some config.origin_url;
    }

  -- What an update may say of a visit: "failed" if the visit is not full, nothing, or "done".
  pub data Honest (status_visit : String) (errors : List String) (r : TaskResult)
      : Option Snapshot → Option StatusUpdate → Type 0 where
    failure :
        {snapshot : Option Snapshot}
        → status_visit ≢ "full"
        → Honest status_visit errors r snapshot (some (failed_update errors))
    silence :
        {snapshot : Option Snapshot}
        → status_visit ≡ "full"
        → Honest status_visit errors r snapshot none
    success :
        {snapshot : Snapshot} {update : StatusUpdate}
        → status_visit ≡ "full"
        → Success r snapshot update
        → Honest status_visit errors r (some snapshot) (some update)

  Triple-present :
      {P A : Type 0} (o : Option A)
      → Triple {S = W} (λ _. P) (present o) (λ a _. P × (o ≡ some a)) Any
  unfolding present
  Triple-present none = Triple-throw _ (λ s p. tt)
  Triple-present (some a) = Triple-pure a (λ s p. (p, refl))

  Triple-gets :
      {P A : Type 0} (f : W → A) → Triple (λ _. P) (gets f) (λ a _. P × ((w : W) × (f w ≡ a))) Any
  unfolding gets
  Triple-gets f = record { run = λ s p. (p, (s, refl)) }

  -- What branch_update has found before it asks for the release.
  abbrev Found : Snapshot → Option SnapshotBranch → Type 0
  Found s branch =
      (version : String) × (Returned default_version version
        × ((world : W) × ((name : String) × ((lookup version (names world) ≡ some name)
                × (lookup name s.branches ≡ some branch)))))

  -- What release_update has found before it asks for the directory.
  abbrev Stored : Snapshot → Option SnapshotBranch → Sha1Git → Option Release → Type 0
  Stored s branch rel_id release =
      (Found s branch × (branch_target branch ≡ some rel_id))
      × Returned (release_get rel_id) release

  abbrev Reports : (errors : List String) → TaskResult → Snapshot → Option StatusUpdate → Type 0
  Reports errors r s = Honest "full" errors r (some s)

  done_update_Honest :
      (errors : List String) (r : TaskResult) (s : Snapshot) (branch : Option SnapshotBranch)
      (rel_id : Sha1Git) (release : Release) (target : Option Sha1Git)
      → release.target ≡ target
      → Triple
          (λ _. Stored s branch rel_id (some release))
          (done_update identifiers config default_version names release_get r rel_id target)
          (λ u w. Reports errors r s u)
          Any
  unfolding done_update
  done_update_Honest errors r s branch rel_id release none e = Triple-throw _ (λ w p. tt)
  done_update_Honest errors r s branch rel_id release (some directory_id) e =
      Triple-bind (Triple-present r.snapshot_id) λ id. Triple-pure _ λ w q.
        let p = q.0 in
        success refl (record {
          version = p.0.0.0;
          version_is_default = p.0.0.1.0;
          world = p.0.0.1.1.0;
          branch_name = p.0.0.1.1.1.0;
          branch_of_version = p.0.0.1.1.1.1.0;
          branch = branch;
          branch_of_snapshot = p.0.0.1.1.1.1.1;
          rel_id = rel_id;
          target_of_branch = p.0.1;
          release = release;
          release_in_storage = p.1;
          directory_id = directory_id;
          target_of_release = e;
          snapshot_id = id;
          snapshot_of_result = q.1;
          tells = refl;
        })

  stored_update_Honest :
      (errors : List String) (r : TaskResult) (s : Snapshot) (branch : Option SnapshotBranch)
      (rel_id : Sha1Git) (release : Option Release)
      → Triple
          (λ _. Stored s branch rel_id release)
          (stored_update identifiers config default_version names release_get r rel_id release)
          (λ u w. Reports errors r s u)
          Any
  unfolding stored_update
  stored_update_Honest errors r s branch rel_id none = Triple-pure none (λ w p. silence refl)
  stored_update_Honest errors r s branch rel_id (some release) =
      done_update_Honest errors r s branch rel_id release release.target refl

  release_update_Honest :
      (errors : List String) (r : TaskResult) (s : Snapshot) (branch : Option SnapshotBranch)
      (target : Option Sha1Git)
      → branch_target branch ≡ target
      → Triple
          (λ _. Found s branch)
          (release_update identifiers config default_version names release_get r target)
          (λ u w. Reports errors r s u)
          Any
  unfolding release_update
  release_update_Honest errors r s branch none e = Triple-pure none (λ w p. silence refl)
  release_update_Honest errors r s branch (some rel_id) e =
      Triple-bind (Triple-weaken (λ w p. (p, e)) (Triple-Returned (release_get rel_id)))
        (stored_update_Honest errors r s branch rel_id)

  branch_update_Honest :
      (errors : List String) (r : TaskResult) (s : Snapshot)
      → Triple
          (λ _. Unit {0})
          (branch_update identifiers config default_version names release_get r s)
          (λ u w. Reports errors r s u)
          Any
  unfolding branch_update get_default_branch_name
  branch_update_Honest errors r s = Triple-bind (Triple-Returned default_version) λ version.
      Triple-bind (Triple-gets names) λ known.
        Triple-bind (Triple-present (lookup version known)) λ name.
          Triple-bind (Triple-present (lookup name s.branches)) λ branch.
            Triple-weaken
              (λ w p. (
                version,
                (
                  p.0.0.0.1,
                  (
                    p.0.0.1.0,
                    (name, (ap (λ (n : Names). lookup version n) p.0.0.1.1 ∙ p.0.1, p.1)),
                  ),
                ),
              ))
              (release_update_Honest errors r s branch (branch_target branch) refl)

  snapshot_update-Honest :
      (errors : List String) (r : TaskResult) (snapshot : Option Snapshot)
      → Triple
          (λ _. Unit {0})
          (snapshot_update identifiers config default_version names release_get r snapshot)
          (λ u w. Honest "full" errors r snapshot u)
          Any
  unfolding snapshot_update
  snapshot_update-Honest errors r none = Triple-pure none (λ w p. silence refl)
  snapshot_update-Honest errors r (some s) =
      Triple-elim (is_empty s.branches) (λ e. Triple-pure none (λ w p. silence refl))
        (λ e. branch_update_Honest errors r s)

  -- What finalize_visit tells the deposit server, if anything: "failed" with the errors for a visit that is
  -- not full, and "done" only for a full visit with a snapshot in which the branch of the default version
  -- points to a release that the storage returned, with the identifiers of that release, its directory
  -- and the snapshot.
  pub choose_update-Honest :
      (status_visit : String) (errors : List String) (r : TaskResult) (snapshot : Option Snapshot)
      (w : W)
      → Post
          (λ u v. Honest status_visit errors r snapshot u)
          Any
          (choose_update identifiers config default_version names release_get status_visit errors r
            snapshot w)
  unfolding choose_update
  choose_update-Honest status_visit errors r snapshot w =
      (Triple-elim {P = λ _. Unit {0}} (status_visit == "full")
          (λ e. rw (str_full e) (snapshot_update-Honest errors r snapshot))
          (λ e. Triple-pure _ (λ v p. failure (not_full e)))).run
        w tt
    where
      str_full : status_visit == "full" ≡ true → status_visit ≡ "full"
      str_full e = (string_eq.beq_iff status_visit "full").0 e

      not_full : status_visit == "full" ≡ false → status_visit ≢ "full"
      not_full e f = absurd (cc ((string_eq.beq_iff status_visit "full").1 f, e))
