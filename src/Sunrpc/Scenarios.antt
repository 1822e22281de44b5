-- ===== src/Sunrpc/Scenarios.antt =====
-- A small dictionary and small records: tests, and the theorems at concrete inputs.
use glusterd.Prelude.{
  Bytes, bytes_eq, ℕ, ◌≡◌, refl, [], ◌∷◌, ◌++◌, arith, ok, err, length, replicate, length-replicate,
}
use glusterd.GoMap.{has, lookup, insert}
use glusterd.Sunrpc.Dict.{
  panicked, get_uint32, read_into, read_entry, read_entries, unserialize, serialize,
}
use glusterd.Sunrpc.Dict.RoundTrip.{IsWritable, unserialize-serialize}
use glusterd.Sunrpc.Record.{
  get_fragment_size, write_full_record, read_loop, read_full_record, end_of_file,
}
use glusterd.Sunrpc.Record.Fragments.{read-write_full_record}

-- A value whose length is given as zero is a panic.
zero_length_value :
    unserialize (0 ∷ 0 ∷ 0 ∷ 1 ∷ 0 ∷ 0 ∷ 0 ∷ 1 ∷ 0 ∷ 0 ∷ 0 ∷ 0 ∷ 97 ∷ 0 ∷ []) ≡ err panicked
unfolding unserialize read_entries read_entry read_into get_uint32
zero_length_value = refl

-- Where the bytes end too early, the last header is read again as the next length.
short_input : unserialize (0 ∷ 0 ∷ 0 ∷ 1 ∷ []) ≡ ok ((0 ∷ [], []) ∷ [])
unfolding unserialize read_entries read_entry read_into get_uint32 insert
short_input = refl

cut_short : read_full_record (128 ∷ 0 ∷ 0 ∷ 2 ∷ 7 ∷ []) ≡ err end_of_file
unfolding read_full_record read_loop get_uint32 get_fragment_size
cut_short = refl

writable : IsWritable ((97 ∷ [], 1 ∷ 2 ∷ []) ∷ (98 ∷ [], []) ∷ [])
unfolding has lookup
writable = (refl, omega arith, omega arith, (refl, omega arith, omega arith, tt))

unserialize-serialize_example :
    (bytes : Bytes) × (serialize ((97 ∷ [], 1 ∷ 2 ∷ []) ∷ (98 ∷ [], []) ∷ []) ≡ ok bytes)
    × (unserialize bytes ≡ ok ((97 ∷ [], 1 ∷ 2 ∷ []) ∷ (98 ∷ [], []) ∷ []))
unserialize-serialize_example =
    unserialize-serialize ((97 ∷ [], 1 ∷ 2 ∷ []) ∷ (98 ∷ [], []) ∷ []) (omega arith) (omega arith)
      writable

read-write_full_record_example :
    (sent : Bytes) × (write_full_record (5 ∷ 6 ∷ []) ≡ ok (sent, length sent))
    × (read_full_record (sent ++ 9 ∷ []) ≡ ok (5 ∷ 6 ∷ [], 9 ∷ []))
read-write_full_record_example = read-write_full_record (5 ∷ 6 ∷ []) (9 ∷ []) (omega arith)

message_of : ℕ → Bytes
message_of n = replicate n 7

length-message_of : (n : ℕ) → length (message_of n) ≡ n
unfolding message_of
length-message_of n = length-replicate n 7
