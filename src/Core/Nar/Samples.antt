-- ===== src/Core/Nar/Samples.antt =====
-- core/nar.py: two listings of one directory.
use swh_loader_core.Prelude.{◌+◌, ℕ, ◌≡◌, refl, true, some, [], ◌∷◌, ◌++◌, length, arith}
use swh_loader_core.Effects.{ok, effects}
use swh_loader_core.Core.Nar.{
  Bytes, Fso, regular, symlink, directory, no_entries, entry, encode, serialize, serialize_body,
  str_bytes, str_list, to_bytes, little_endian, update, run_all, serialize_entry,
  filter_and_serialize,
}
use swh_loader_core.Core.Nar.Readable.{read_str, words, str_bytes_read}
use swh_loader_core.Core.Nar.Ordered.{IsSupported, ordered}
use swh_loader_core.Core.Nar.Feeding.{serialize-injective}

abbrev file : Fso
file = regular true (1 ∷ 2 ∷ [])

abbrev one_listing : Fso
one_listing =
    directory
      (entry "b" file (entry ".git" (directory no_entries) (entry "a" (symlink "b") no_entries)))

abbrev other_listing : Fso
other_listing = directory (entry "a" (symlink "b") (entry "b" file no_entries))

one-IsSupported : IsSupported one_listing
unfolding encode
one-IsSupported =
    (omega arith, (omega arith, (omega arith, (tt, (omega arith, (omega arith, tt))))))

other-IsSupported : IsSupported other_listing
unfolding encode
other-IsSupported = (omega arith, (omega arith, (omega arith, (omega arith, tt))))

same_run : serialize (some ".git") one_listing [] ≡ serialize (some ".git") other_listing []
unfolding serialize serialize_body str_bytes str_list to_bytes little_endian update run_all
    serialize_entry filter_and_serialize encode effects
same_run = refl

serialize-injective_example :
    ordered (some ".git") one_listing ≡ ordered (some ".git") other_listing
serialize-injective_example =
    serialize-injective (some ".git") one_listing other_listing one-IsSupported other-IsSupported
      same_run

str_bytes_read_example :
    (out : Bytes) × ((str_bytes (1 ∷ 2 ∷ []) (9 ∷ []) ≡ (ok tt, 9 ∷ out))
      × ((read_str (out ++ 7 ∷ []) ≡ (1 ∷ 2 ∷ [], 7 ∷ []))
          × (length out ≡ 8 + words (length {A = ℕ} (1 ∷ 2 ∷ [])))))
str_bytes_read_example = str_bytes_read (1 ∷ 2 ∷ []) (9 ∷ []) (7 ∷ []) (omega arith)
