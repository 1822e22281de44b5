-- ===== src/Sunrpc/Record/Fragments.antt =====
-- Records that are read from their fragments, and records that are written.
use mathlib.Core.List.{append_assoc, append-nil}
use glusterd.Prelude.{
  Bytes, ℕ, zero, suc, ◌+◌, ◌-◌, ◌^◌, ◌≤◌, ◌<◌, ◌≡◌, refl, sym, ap, ◌∙◌, Bool, true, false, List,
  [], ◌∷◌, ◌++◌, length, take, drop, ltb, ok, err, if◌then◌else◌, arith, length-append,
  take_of_append, drop_of_append,
}
use glusterd.Sunrpc.Dict.{put_uint32, get_uint32}
use glusterd.Sunrpc.Dict.RoundTrip.{get-put_uint32, length-put_uint32}
use glusterd.Sunrpc.Record.{
  max_record_fragment_size, max_record_size, is_last_fragment, get_fragment_size,
  create_fragment_header, panicked, fragment_size, write_loop, write_full_record, read_loop,
  read_full_record,
}

header_bounds :
    (size : ℕ) (last : Bool)
    → size ≤ max_record_fragment_size
    → let h = create_fragment_header size last in
      (h < 2 ^ 32) × (get_fragment_size h ≡ size) × (is_last_fragment h ≡ last)
unfolding create_fragment_header get_fragment_size is_last_fragment
header_bounds size true small = (omega (arith, small), omega (arith, small), ground (arith, small))
header_bounds size false small = (omega (arith, small), omega (arith, small), ground (arith, small))

take-put_uint32 : (n : ℕ) (rest : Bytes) → take 4 (put_uint32 n ++ rest) ≡ put_uint32 n
unfolding put_uint32
take-put_uint32 n rest = refl

drop-put_uint32 : (n : ℕ) (rest : Bytes) → drop 4 (put_uint32 n ++ rest) ≡ rest
unfolding put_uint32
drop-put_uint32 n rest = refl

-- The fragment of a body, in front of what follows.
abbrev pub fragment : Bytes → Bool → Bytes → Bytes
fragment body last rest = put_uint32 (create_fragment_header (length body) last) ++ (body ++ rest)

-- A record of fragments: the bodies, and that of the last fragment.
abbrev pub fragments : List Bytes → Bytes → Bytes → Bytes
fragments [] final rest = fragment final true rest
fragments (body ∷ bodies) final rest = fragment body false (fragments bodies final rest)

abbrev pub joined : List Bytes → Bytes → Bytes
joined [] final = final
joined (body ∷ bodies) final = body ++ joined bodies final

read_loop-fragment :
    (fuel : ℕ) (so_far body rest : Bytes) (last : Bool)
    → length so_far + length body ≤ max_record_size
    → read_loop (suc fuel) so_far (fragment body last rest)
      ≡ (if last then ok (so_far ++ body, rest) else read_loop fuel (so_far ++ body) rest)
unfolding read_loop
read_loop-fragment fuel so_far body rest last fits =
    let h = create_fragment_header (length body) last in
    let (below, size, flag) = header_bounds (length body) last (omega (arith, fits)) in
    let header : get_uint32 (take 4 (put_uint32 h ++ (body ++ rest))) ≡ h =
      ap get_uint32 (take-put_uint32 h (body ++ rest)) ∙ get-put_uint32 h below in
    let long : ltb (length (put_uint32 h ++ (body ++ rest))) 4 ≡ false =
      ground (arith, length-append (put_uint32 h) (body ++ rest), length-put_uint32 h) in
    let whole : ltb (length (body ++ rest)) (length body) ≡ false =
      ground (arith, length-append body rest) in
    let allowed : ltb (max_record_size - length so_far) (length body) ≡ false =
      ground (arith, fits) in
    let small : ltb max_record_fragment_size (length body) ≡ false = ground (arith, fits) in
    rw
      (
        read_loop,
        long,
        header,
        size,
        drop-put_uint32 h (body ++ rest),
        small,
        allowed,
        whole,
        flag,
        take_of_append body rest,
        drop_of_append body rest,
      )
      refl

read_loop-fragments :
    (fuel : ℕ) (so_far : Bytes) (bodies : List Bytes) (final rest : Bytes)
    → length bodies < fuel
    → length so_far + length (joined bodies final) ≤ max_record_size
    → read_loop fuel so_far (fragments bodies final rest) ≡ ok (so_far ++ joined bodies final, rest)
read_loop-fragments zero so_far bodies final rest enough fits = absurd (omega (arith, enough))
read_loop-fragments (suc fuel) so_far [] final rest enough fits =
    read_loop-fragment fuel so_far final rest true fits
read_loop-fragments (suc fuel) so_far (body ∷ bodies) final rest enough fits =
    let sum = length-append body (joined bodies final) in
    let so_far_len = length-append so_far body in
    read_loop-fragment fuel so_far body (fragments bodies final rest) false
      (omega (arith, fits, sum))
    ∙ read_loop-fragments fuel (so_far ++ body) bodies final rest (omega (arith, enough))
        (omega (arith, fits, sum, so_far_len))
    ∙ ap (λ x. ok (x, rest)) (append_assoc so_far body (joined bodies final))

length-fragments :
    (bodies : List Bytes) (final rest : Bytes)
    → length bodies < length (fragments bodies final rest)
length-fragments [] final rest =
    let h = create_fragment_header (length final) true in
    omega (arith, length-append (put_uint32 h) (final ++ rest), length-put_uint32 h)
length-fragments (body ∷ bodies) final rest =
    let h = create_fragment_header (length body) false in
    let more = fragments bodies final rest in
    omega (
      arith,
      length-append (put_uint32 h) (body ++ more),
      length-append body more,
      length-put_uint32 h,
      length-fragments bodies final rest,
    )

-- A record in any number of fragments whose bodies have together at most 1 MiB is read as the
-- bodies in their order, and what follows it is left on the connection.
read_full_record-fragments :
    (bodies : List Bytes) (final rest : Bytes)
    → length (joined bodies final) ≤ max_record_size
    → read_full_record (fragments bodies final rest) ≡ ok (joined bodies final, rest)
unfolding read_full_record
read_full_record-fragments bodies final rest fits =
    let more = length-fragments bodies final rest in
    read_loop-fragments (suc (length (fragments bodies final rest))) [] bodies final rest
      (omega (arith, more)) (omega (arith, fits))

take_all : (xs : Bytes) → take (length xs) xs ≡ xs
take_all xs = ap (take (length xs)) (sym (append-nil xs)) ∙ take_of_append xs []

-- A message that fits into one fragment is written as that fragment.
write_full_record_small :
    (message : Bytes)
    → length message ≤ max_record_fragment_size
    → write_full_record message ≡ ok (fragment message true [], length message + 4)
unfolding write_full_record write_loop fragment_size
write_full_record_small message small = ground (arith, take_all message, append-nil message)

-- A message of at most 1 MiB is written without an error, the count is that of the bytes sent, and
-- the message is read back from them, whatever follows.
pub read-write_full_record :
    (message rest : Bytes)
    → length message ≤ max_record_size
    → (sent : Bytes) × (write_full_record message ≡ ok (sent, length sent))
      × (read_full_record (sent ++ rest) ≡ ok (message, rest))
read-write_full_record message rest fits =
    let h = create_fragment_header (length message) true in
    let sent = fragment message true [] in
    let len : length message + 4 ≡ length sent = omega (
      arith,
      length-append (put_uint32 h) (message ++ []),
      length-append message [],
      length-put_uint32 h,
    ) in
    let whole : sent ++ rest ≡ fragment message true rest =
      append_assoc (put_uint32 h) (message ++ []) rest
      ∙ ap (λ x. put_uint32 h ++ (x ++ rest)) (append-nil message) in
    (
      sent,
      write_full_record_small message (omega (arith, fits)) ∙ ap (λ n. ok (sent, n)) len,
      ap read_full_record whole ∙ read_full_record-fragments [] message rest fits,
    )

-- A message that does not fit into one fragment is not sent as several: the second round takes its
-- part of the message by bounds that are the wrong way round, which is a panic.
write_full_record_large :
    (message : Bytes)
    → max_record_fragment_size < length message
    → write_full_record message ≡ err panicked
unfolding write_full_record write_loop fragment_size
write_full_record_large message large = ground arith
