-- ===== src/Core/Utils/Download/Verified.antt =====
-- core/utils.py: what download returns has the hashes that were asked for.
use swh_loader_core.Prelude.{
  String, Bool, true, false, ◌≡◌, refl, ap, sym, ◌∙◌, Option, some, List, [], ◌∷◌, map, Dict,
  lookup, string_eq, Within, Within-to_set, inl, inr, arith, All, if◌then◌else◌,
}
use swh_loader_core.Effects.{Result, ok, raise, no_fuel, value_error, Exec}
use swh_loader_core.Effects.Hoare.{Post, Triple, Triple-pure, Triple-bind}
use swh_loader_core.Core.Nar.{Bytes}
use swh_loader_core.Core.Utils.Download.{
  Digest, digest_beq, Response, Web, response_data, hash_names, multi_hash, check_hashes, download,
}

module _ {W : Type 0} (web : Web W) where
  lookup-multi_hash :
      (a : String) (names : List String) (content : Bytes)
      → Within a names
      → lookup a (multi_hash web names content) ≡ some (web.digest a content)
  lookup-multi_hash a [] content h = absurd h
  lookup-multi_hash a (n ∷ names) content (inl e) = ground (arith, string_eq.beq_iff n a)
  lookup-multi_hash a (n ∷ names) content (inr h) =
      ground (arith, string_eq.beq_iff n a, lookup-multi_hash a names content h)

  -- All the hashes are those of the content.
  abbrev pub all_match : Bytes → Dict String Digest → Bool
  all_match content [] = true
  all_match content (h ∷ hashes) =
      let rest = all_match content hashes in
      if digest_beq (web.digest h.0 content) h.1 then rest else false

  check_names :
      (names : List String) (content : Bytes) (hashes : Dict String Digest)
      → All (λ (h : String × Digest). Within h.0 names) hashes
      → check_hashes web (multi_hash web names content) hashes
        ≡ (if all_match content hashes then ok tt else raise (value_error "Checksum mismatched"))
  unfolding check_hashes
  check_names names content [] h = refl
  check_names names content ((a, d) ∷ hashes) (h, hs) =
      rw (lookup-multi_hash a names content h, check_names names content hashes hs)
        (by_test (digest_beq (web.digest a content) d) (all_match content hashes))
    where
      by_test :
          (b c : Bool)
          → (if b
              then (if c then ok tt else raise (value_error "Checksum mismatched"))
              else raise (value_error "Checksum mismatched"))
            ≡ (if (if b then c else false)
                then ok tt
                else raise (value_error "Checksum mismatched"))
      by_test true c = refl
      by_test false c = refl

  keys_within :
      (hashes more : Dict String Digest) (f : String → Type 0)
      → ((h : String × Digest) → Within h hashes → f h.0)
      → All (λ (h : String × Digest). f h.0) hashes
  keys_within [] more f g = tt
  keys_within (h ∷ hashes) more f g =
      (g h (inl refl), keys_within hashes more f (λ k w. g k (inr w)))

  Within-keys :
      (h : String × Digest) (hashes : Dict String Digest)
      → Within h hashes
      → Within h.0 (map (λ (k : String × Digest). k.0) hashes)
  Within-keys h [] w = absurd w
  Within-keys h (k ∷ hashes) (inl e) = inl (ap (λ (x : String × Digest). x.0) e)
  Within-keys h (k ∷ hashes) (inr w) = inr (Within-keys h hashes w)

  -- The check of the expected hashes looks each of them up in the computed ones, finds it there (there is
  -- no KeyError) and accepts exactly the contents that have all of them.
  pub check_hashes_lem :
      (content : Bytes) (hashes : Dict String Digest)
      → check_hashes web (multi_hash web (hash_names hashes) content) hashes
        ≡ (if all_match content hashes then ok tt else raise (value_error "Checksum mismatched"))
  check_hashes_lem content hashes = check_names (hash_names hashes) content hashes (
      keys_within hashes [] (λ n. Within n (hash_names hashes))
        λ h w.
          Within-to_set h.0
            ("sha1" ∷ "sha256" ∷ "length" ∷ map (λ (k : String × Digest). k.0) hashes)
            (inr (inr (inr (Within-keys h hashes w)))))

  self_Post :
      {A : Type 0} (m : Exec W A) (w : W) (r : Result A × W)
      → m w ≡ r
      → Post (λ a w'. (v : W) × (m w ≡ (ok a, v))) (λ e w'. Unit {0}) r
  self_Post m w (ok a, v) e = (v, e)
  self_Post m w (raise x, v) e = tt
  self_Post m w (no_fuel, v) e = tt

  -- A computed result as an action that leaves the world alone.
  Triple-result :
      {A : Type 0} {P : W → Type 0} (r : Result A)
      → Triple P (λ w. (r, w)) (λ a w. P w × (r ≡ ok a)) (λ e w. Unit {0})
  Triple-result {A} {P} (ok a) = record { run = λ w p. (p, refl) }
  Triple-result (raise e) = record { run = λ w p. tt }
  Triple-result no_fuel = record { run = λ w p. tt }

  ok_only :
      (b : Bool)
      → (if b then ok tt else raise (value_error "Checksum mismatched")) ≡ ok (tt {0})
      → b ≡ true
  ok_only true e = refl
  ok_only false e = absurd (cc)

  abbrev content_of : Response → Bytes
  content_of response = response_data response.chunks

  -- If `download` returns, it has read a response at the URL, and the bytes of the response up to the
  -- first empty chunk have every hash that was asked for; the URL that it reports is the response's, and
  -- the length is that of those bytes.
  pub download-Verified :
      (url dest : String) (hashes : Dict String Digest) (filename : Option String)
      (headers : Dict String String) (w : W)
      → Post
          (λ r w'.
            (response : Response) × (((v : W) × (web.get url headers w ≡ (ok response, v)))
              × ((all_match (response_data response.chunks) hashes ≡ true)
                  × ((r.1.url ≡ response.url)
                      × (r.1.length
                          ≡ some (web.digest "length" (response_data response.chunks)))))))
          (λ e w'. Unit {0})
          (download web url dest hashes filename headers w)
  download-Verified url dest hashes filename headers w =
      (Triple-bind {Q = λ response v. (u : W) × (web.get url headers w ≡ (ok response, u))}
          {P = λ v. v ≡ w} (record { run = λ v e. rw e (self_Post (web.get url headers) w _ refl) })
          λ response.
            Triple-bind {Q = λ x v. (u : W) × (web.get url headers w ≡ (ok response, u))}
              (record { run = λ v h. keep_Post _ h (web.write _ _ v) })
              λ x.
                Triple-bind
                  (Triple-result (
                    check_hashes web (multi_hash web (hash_names hashes) (content_of response))
                      hashes))
                  λ y. Triple-pure _ λ v h. (
                    response,
                    (
                      h.0,
                      (
                        ok_only _ (sym (check_hashes_lem (content_of response) hashes) ∙ h.1),
                        (
                          refl,
                          lookup-multi_hash "length" _ _ (
                              Within-to_set "length"
                                ("sha1"
                                  ∷ "sha256"
                                  ∷ "length"
                                  ∷ map (λ (k : String × Digest). k.0) hashes)
                                (inr (inr (inl refl)))),
                        ),
                      ),
                    ),
                  )).run
        w refl
    where
      keep_Post :
          {A : Type 0} (P : Type 0) → P → (r : Result A × W) → Post (λ a v. P) (λ e v. Unit {0}) r
      keep_Post P h (ok a, v) = h
      keep_Post P h (raise x, v) = tt
      keep_Post P h (no_fuel, v) = tt
