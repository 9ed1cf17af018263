-- ===== src/Core/Utils/Samples.antt =====
-- core/utils.py and core/converters.py: one download, and two contents of which one is too large.
use swh_loader_core.Prelude.{ℕ, ◌≡◌, true, String, none, some, List, [], ◌∷◌, Dict, if◌then◌else◌}
use swh_loader_core.Effects.{ok, raise, value_error}
use swh_loader_core.Effects.Hoare.{Post, Any}
use swh_loader_core.Effects.Fuel.{Ends}
use swh_loader_core.Core.Utils.Cloning.{Responds, Seen, clone_with_timeout-Ends}
use swh_loader_core.Core.Utils.{DiskContent, prepare_contents, Process, clone_with_timeout}
use swh_loader_core.Core.Utils.Contents.{IsSplit, prepare_contents-IsSplit}
use swh_loader_core.Core.Utils.Download.{
  Digest, hex, Web, Response, response_data, hash_names, multi_hash, check_hashes, download,
}
use swh_loader_core.Core.Utils.Download.Verified.{all_match, check_hashes_lem, download-Verified}
use swh_loader_core.Samples.{done, give}

abbrev sample_web : Web ℕ
sample_web = record {
  get = λ u h.
      give (record { url = u; disposition = some "f.tgz"; chunks = (1 ∷ 2 ∷ []) ∷ (3 ∷ []) ∷ [] });
  write = λ p b. done;
  digest = λ algo b. hex algo;
  url_basename = λ u. "f";
  join = λ a b. b;
}

abbrev asked : Dict String Digest
asked = ("sha256", hex "sha256") ∷ ("md5", hex "0") ∷ []

check_hashes_lem_example :
    check_hashes sample_web (multi_hash sample_web (hash_names asked) (1 ∷ [])) asked ≡ (
      if all_match sample_web (1 ∷ []) asked
      then ok tt
      else raise (value_error "Checksum mismatched"))
check_hashes_lem_example = check_hashes_lem sample_web (1 ∷ []) asked

download-Verified_example :
    Post
      (λ r w'.
        (response : Response) × (((v : ℕ) × (sample_web.get "https://example.org/f" [] 0
              ≡ (ok response, v)))
          × ((all_match sample_web (response_data response.chunks) (("sha1", hex "sha1") ∷ [])
                ≡ true)
              × ((r.1.url ≡ response.url)
                  × (r.1.length
                      ≡ some (sample_web.digest "length" (response_data response.chunks)))))))
      (λ e w'. Unit {0})
      (download sample_web "https://example.org/f" "/tmp" (("sha1", hex "sha1") ∷ []) none [] 0)
download-Verified_example =
    download-Verified sample_web "https://example.org/f" "/tmp" (("sha1", hex "sha1") ∷ []) none []
      0

abbrev two_contents : List DiskContent
two_contents =
    record { sha1_git = "a"; content_length = 3; data_ = some "abc"; path = "/a" }
    ∷ record { sha1_git = "b"; content_length = 30; data_ = none; path = "/b" }
    ∷ []

prepare_contents-IsSplit_example :
    Post {S = ℕ}
      (λ r w'. IsSplit (some 10) two_contents r)
      (λ e w'. Unit {0})
      (prepare_contents (λ p. give "read") (some 10) none two_contents 0)
prepare_contents-IsSplit_example =
    prepare_contents-IsSplit (λ p. give "read") (some 10) none two_contents 0

-- A child that never stops by itself.
abbrev stubborn : Process ℕ
stubborn = record {
  start = done;
  join = λ t. done;
  is_alive = give true;
  terminate = done;
  kill = done;
  sleep = done;
  errors = give [];
}

stubborn-Responds : Responds stubborn
stubborn-Responds = record {
  start = record { ends = λ s. tt };
  join = λ t. record { ends = λ s. tt };
  is_alive = record { ends = λ s. tt };
  terminate = record { ends = λ s. tt };
  kill = record { ends = λ s. tt };
  sleep = record { ends = λ s. tt };
  errors = record { ends = λ s. tt };
}

clone_with_timeout-Ends_example :
    Ends (clone_with_timeout stubborn 3 0)
    × Post (Seen stubborn) Any (clone_with_timeout stubborn 3 0)
clone_with_timeout-Ends_example = clone_with_timeout-Ends stubborn stubborn-Responds 3 0
