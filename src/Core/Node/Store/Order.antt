-- ===== src/Core/Node/Store/Order.antt =====
-- core/loader.py: store_data of ContentLoader and BaseDirectoryLoader: what is sent, and in which order.
use swh_loader_core.Prelude.{
  String, ◌≡◌, refl, ap, true, false, ◌⊎◌, inl, inr, Option, some, List, [], ◌∷◌, ◌++◌,
}
use swh_loader_core.Effects.{
  Exception, is_exception, Result, ok, raise, no_fuel, Exec, pure, gets, modify, expect, ◌>>=◌,
}
use swh_loader_core.Effects.Hoare.{
  Post, Any, Triple-forget, Triple-raise, Triple, Triple-pure, Triple-bind, Triple-try_except,
}
use swh_loader_core.Model.{Sha1Git, ObjectType, ExtId, Snapshot, Branches}
use swh_loader_core.Storage.{
  Storage, Call, call, rejoin, content_add, skipped_content_add, directory_add, extid_add,
  snapshot_add,
}
use swh_loader_core.Core.Utils.Download.{Digest}
use swh_loader_core.Core.Node.Init.{NodeConfig}
use swh_loader_core.Core.Node.Store.{
  FoundDirectory, Node, lift_result, on_log, extids, load_extids, head_snapshot, send_snapshot,
  store_content, build_snapshot, store_directory,
}

-- What the loader has of the artifact and its snapshot, and the calls so far.
abbrev Holds :
    {W : Type 0}
    → Option Sha1Git
    → Option FoundDirectory
    → Option Snapshot
    → List Call
    → Node W
    → Type 0
Holds content directory snapshot calls s =
    ((s.content ≡ content) × (s.directory ≡ directory))
    × ((s.snapshot ≡ snapshot) × (s.log.calls ≡ calls))

-- The call for the ExtIDs: none without checksums.
abbrev pub extid_calls : List ExtId → List Call
extid_calls [] = []
extid_calls (e ∷ extids) = extid_add (e ∷ extids) ∷ []

module _ {W : Type 0} {content : Option Sha1Git} {directory : Option FoundDirectory}
    {snapshot : Option Snapshot} where
  -- A call is in the log, whether it returns or raises; the attributes stay.
  call_Post :
      {A : Type 0} (s : Node W) (c : Call) (calls : List Call) (r : Result A × W)
      → Holds content directory snapshot calls s
      → Post
          (λ a. Holds content directory snapshot (c ∷ calls))
          (λ e. Holds content directory snapshot (c ∷ calls))
          (lift_result s (rejoin (c ∷ s.log.calls) r))
  call_Post s c calls (ok a, w) h = (h.0, (h.1.0, ap (λ (l : List Call). c ∷ l) h.1.1))
  call_Post s c calls (raise e, w) h = (h.0, (h.1.0, ap (λ (l : List Call). c ∷ l) h.1.1))
  call_Post s c calls (no_fuel, w) h = tt

  Triple-call :
      {A : Type 0} (c : Call) (calls : List Call) (m : Exec W A)
      → Triple
          (Holds content directory snapshot calls)
          (on_log (call c m))
          (λ a. Holds content directory snapshot (c ∷ calls))
          (λ e. Holds content directory snapshot (c ∷ calls))
  unfolding on_log call
  Triple-call c calls m = record { run = λ s h. call_Post s c calls (m s.log.world) h }

-- `store_data` is over: the snapshot is the last thing that was sent.
abbrev pub IsStored : {W : Type 0} → Snapshot → List Call → Node W → Type 0
IsStored snapshot calls s =
    (s.log.calls ≡ (snapshot_add snapshot ∷ calls))
    × ((s.snapshot ≡ some snapshot) × (s.loaded_snapshot_id ≡ some snapshot.id))

module _ {W : Type 0} (storage : Storage W) (config : NodeConfig) (origin_url visit_type : String)
    (hash_to_bytes : Digest → String) (snapshot_id : Branches → Sha1Git) where
  load_extids_calls :
      {content : Option Sha1Git} {directory : Option FoundDirectory} {snapshot : Option Snapshot}
      (calls : List Call) (new : List ExtId)
      → Triple
          (Holds {W = W} content directory snapshot calls)
          (load_extids storage config origin_url visit_type hash_to_bytes snapshot_id new)
          (λ a. Holds content directory snapshot (extid_calls new ++ calls))
          (λ e s. is_exception e ≡ false)
  unfolding load_extids
  load_extids_calls calls [] = Triple-pure tt (λ s h. h)
  load_extids_calls {content} {directory} {snapshot} calls (e ∷ new) =
      Triple-try_except {T = λ e'. Holds content directory snapshot (extid_add (e ∷ new) ∷ calls)}
        (Triple-call _ calls _) (λ x b. Triple-pure tt (λ s h. h)) (λ x s b h. b)

  send_snapshot-IsStored :
      {content : Option Sha1Git} {directory : Option FoundDirectory} (calls : List Call)
      (snapshot : Snapshot)
      → Triple
          (Holds {W = W} content directory (some snapshot) calls)
          (send_snapshot storage config origin_url visit_type hash_to_bytes snapshot_id snapshot)
          (λ a. IsStored snapshot calls)
          (λ e s. s.log.calls ≡ snapshot_add snapshot ∷ calls)
  unfolding modify
  send_snapshot-IsStored calls snapshot =
      Triple-bind (Triple-raise (λ e s h. h.1.1) (Triple-call (snapshot_add snapshot) calls _))
        λ x. record { run = λ s h. (h.1.1, (h.1.0, refl)) }

  get_found :
      {A B : Type 0} {P : Node W → Type 0} {Q : B → Node W → Type 0}
      {R : Exception → Node W → Type 0} (f : Node W → Option A) (a : A) (m : A → Exec (Node W) B)
      → ((s : Node W) → P s → f s ≡ some a)
      → Triple P (m a) Q R
      → Triple P (gets f >>= λ o. expect o >>= m) Q R
  unfolding gets expect ◌>>=◌ pure
  get_found f a m h t = record { run = λ s p. rw (h s p) (t.run s p) }

  -- The calls of store_data for a content, up to the ExtIDs.
  abbrev pub content_calls : Sha1Git → List Call → List Call
  content_calls content calls =
      extid_calls (
        extids storage config origin_url visit_type hash_to_bytes snapshot_id
          (record { object_type = ObjectType.content; object_id = content }))
      ++ content_add (content ∷ []) ∷ calls

  -- For a content loader with its content and snapshot built, `store_data`, if it returns, has sent the
  -- content, the ExtIDs where there are checksums, and last the snapshot, whose identifier it keeps. A failure
  -- to send the ExtIDs does not stop it: if an exception other than KeyboardInterrupt or SystemExit
  -- leaves `store_data`, the last call was that of the content or, behind the content and the ExtIDs,
  -- that of the snapshot.
  pub store_content_order :
      (content : Sha1Git) (snapshot : Snapshot) (s : Node W)
      → s.content ≡ some content
      → s.snapshot ≡ some snapshot
      → Post
          (λ a. IsStored snapshot (content_calls content s.log.calls))
          (λ e t.
            is_exception e ≡ true
            → (t.log.calls ≡ content_add (content ∷ []) ∷ s.log.calls)
              ⊎ (t.log.calls ≡ snapshot_add snapshot ∷ content_calls content s.log.calls))
          (store_content storage config origin_url visit_type hash_to_bytes snapshot_id s)
  unfolding store_content
  store_content_order content snapshot s hc hs =
      (get_found {P = Holds (some content) s.directory (some snapshot) s.log.calls} (λ s. s.content)
          content _ (λ s h. h.0.0)
          (Triple-bind (Triple-raise (λ e t h b. inl h.1.1) (Triple-call _ _ _)) λ x.
            Triple-bind (Triple-raise (λ e t h b. absurd (cc (h, b))) (load_extids_calls _ _)) λ y.
              get_found (λ s. s.snapshot) snapshot _ (λ s h. h.1.0)
                (Triple-raise (λ e t h b. inr h) (send_snapshot-IsStored _ snapshot)))).run
        s ((hc, refl), (hs, refl))

  set_and_send :
      {content : Option Sha1Git} {directory : Option FoundDirectory} {old : Option Snapshot}
      (calls : List Call) (built snapshot : Snapshot)
      → Triple
          (λ (s : Node W). (built ≡ snapshot) × Holds content directory old calls s)
          (modify (λ s. record s { snapshot = some built }) >>= λ x.
            send_snapshot storage config origin_url visit_type hash_to_bytes snapshot_id built)
          (λ a. IsStored snapshot calls)
          Any
  unfolding modify ◌>>=◌
  set_and_send {content} {directory} {old} calls built snapshot = record {
    run = λ s h. rw⁻¹ h.0 (
        (Triple-forget
            (send_snapshot-IsStored {content = content} {directory = directory} calls built)).run
          (record s { snapshot = some built }) (h.1.0, (refl, h.1.1.1)));
  }

  -- For a directory loader with its directory read, `store_data`, if it returns, has sent the skipped contents,
  -- the contents, the directories, the ExtIDs where there are checksums, and last the snapshot whose HEAD
  -- is the directory; it keeps that snapshot and its identifier.
  pub store_directory_order :
      (directory : FoundDirectory) (s : Node W)
      → s.directory ≡ some directory
      → Post
          (λ a.
            IsStored
              (head_snapshot storage config origin_url visit_type hash_to_bytes snapshot_id
                ObjectType.directory directory.hash)
              (extid_calls (
                  extids storage config origin_url visit_type hash_to_bytes snapshot_id
                    (record { object_type = ObjectType.directory; object_id = directory.hash }))
                ++ directory_add directory.dirs
                  ∷ content_add directory.cnts
                  ∷ skipped_content_add directory.skipped_cnts
                  ∷ s.log.calls))
          Any
          (store_directory storage config origin_url visit_type hash_to_bytes snapshot_id s)
  unfolding store_directory build_snapshot
  store_directory_order directory s hd =
      (get_found {P = Holds s.content (some directory) s.snapshot s.log.calls} (λ s. s.directory)
          directory _ (λ s h. h.0.1)
          (Triple-bind (Triple-forget (Triple-call _ _ _)) λ x.
            Triple-bind (Triple-forget (Triple-call _ _ _)) λ y.
              Triple-bind (Triple-forget (Triple-call _ _ _)) λ z.
                Triple-bind (Triple-forget (load_extids_calls _ _)) λ e.
                  Triple-bind
                    (get_found
                      {Q = λ built t.
                        (built
                          ≡ head_snapshot storage config origin_url visit_type hash_to_bytes
                              snapshot_id ObjectType.directory directory.hash)
                        × Holds s.content (some directory) s.snapshot _ t}
                      (λ s. s.directory) directory _ (λ s h. h.0.1)
                      (Triple-pure _ (λ s h. (refl, h))))
                    λ built. set_and_send _ built _)).run
        s ((refl, hd), (refl, refl))
