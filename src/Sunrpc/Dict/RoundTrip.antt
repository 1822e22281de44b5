-- ===== src/Sunrpc/Dict/RoundTrip.antt =====
-- A dictionary that is written is read back.
use mathlib.Core.List.{append_assoc, append-nil}
use glusterd.Prelude.{
  Bytes, bytes_eq, bytes_beq, bytes_beq_iff, ℕ, ◌+◌, ◌-◌, ◌%◌, ◌^◌, ◌<◌, ◌≡◌, refl, sym, ap, ◌∙◌,
  false, ◌||◌, [], ◌∷◌, ◌++◌, length, replicate, nat_beq, ok, arith, All, length-append,
  length-replicate, take_of_append,
}
use glusterd.GoMap.{GoMap, insert, has, lookup}
use glusterd.Sunrpc.Dict.{
  put_uint32, get_uint32, read_into, but_last, read_entry, read_entries, unserialize, write_entry,
  write_entries, entries_len, serialize,
}

pub get-put_uint32 : (n : ℕ) → n < 2 ^ 32 → get_uint32 (put_uint32 n) ≡ n
unfolding get_uint32 put_uint32
get-put_uint32 n h = omega (arith, h)

pub length-put_uint32 : (n : ℕ) → length (put_uint32 n) ≡ 4
unfolding put_uint32
length-put_uint32 n = refl

read_into-append :
    (buf xs rest : Bytes) → length buf ≡ length xs → read_into buf (xs ++ rest) ≡ (xs, rest)
unfolding read_into
read_into-append [] [] rest h = refl
read_into-append [] (x ∷ xs) rest h = absurd (omega (arith, h))
read_into-append (b ∷ buf) [] rest h = absurd (omega (arith, h))
read_into-append (b ∷ buf) (x ∷ xs) rest h =
    let again = read_into-append buf xs rest (omega (arith, h)) in rw again refl

but_last-snoc : (xs : Bytes) → but_last (xs ++ 0 ∷ []) ≡ xs
but_last-snoc xs =
    let len : length (xs ++ 0 ∷ []) - 1 ≡ length xs = omega (arith, length-append xs (0 ∷ [])) in
    rw len (take_of_append xs (0 ∷ []))

length-write_entries : (dict : GoMap Bytes Bytes) → length (write_entries dict) ≡ entries_len dict
unfolding write_entries entries_len write_entry put_uint32
length-write_entries [] = refl
length-write_entries ((key, value) ∷ dict) = omega (
  arith,
  length-append key (0 ∷ (value ++ 0 ∷ write_entries dict)),
  length-append value (0 ∷ write_entries dict),
  length-write_entries dict,
)

-- A string and the zero after it, into a buffer of that size.
read_into-terminated :
    (s rest : Bytes) (n : ℕ)
    → n ≡ length s + 1
    → read_into (replicate n 0) (s ++ 0 ∷ rest) ≡ (s ++ 0 ∷ [], rest)
read_into-terminated s rest n h =
    ap (λ x. read_into (replicate n 0) x) (sym (append_assoc s (0 ∷ []) rest))
    ∙ read_into-append (replicate n 0) (s ++ 0 ∷ []) rest
        (omega (arith, h, length-replicate {A = ℕ} n 0, length-append s (0 ∷ [])))

read_entry-write_entry :
    (header key value rest : Bytes)
    → length header ≡ 4
    → length key + 1 < 2 ^ 32
    → length value + 1 < 2 ^ 32
    → read_entry header (write_entry key value rest)
      ≡ ok
          (record { key = key; value = value; header = put_uint32 (length value + 1); rest = rest })
unfolding read_entry write_entry
read_entry-write_entry header key value rest four short_key short_value =
    let tail = key ++ 0 ∷ (value ++ 0 ∷ rest) in
    let pv = put_uint32 (length value + 1) in
    let pk = put_uint32 (length key) in
    let r₁ =
      read_into-append header pk (pv ++ tail) (four ∙ sym (length-put_uint32 (length key))) in
    let r₂ =
      read_into-append pk pv tail
        (length-put_uint32 (length key) ∙ sym (length-put_uint32 (length value + 1))) in
    let gk = get-put_uint32 (length key) (omega (arith, short_key)) in
    let gv = get-put_uint32 (length value + 1) short_value in
    let unwrapped : (length key + 1) % 2 ^ 32 ≡ length key + 1 = omega (arith, short_key) in
    let r₃ = read_into-terminated key (value ++ 0 ∷ rest) (length key + 1) refl in
    let r₄ = read_into-terminated value rest (length value + 1) refl in
    let key_there : nat_beq (length key + 1) 0 ≡ false = ground arith in
    let value_there : nat_beq (length value + 1) 0 ≡ false = ground arith in
    rw
      (
        r₁,
        gk,
        r₂,
        gv,
        unwrapped,
        r₃,
        r₄,
        key_there,
        value_there,
        but_last-snoc key,
        but_last-snoc value,
      )
      refl

-- Keys stand once, and the lengths of keys and values, with a zero after them, fit into 32 bits.
abbrev pub IsWritable : GoMap Bytes Bytes → Type 0
IsWritable [] = Unit
IsWritable ((key, value) ∷ dict) =
    (has key dict ≡ false)
    × (length key + 1 < 2 ^ 32)
    × (length value + 1 < 2 ^ 32)
    × IsWritable dict

-- No key of the second is one of the first.
abbrev AreNew : GoMap Bytes Bytes → GoMap Bytes Bytes → Type 0
AreNew seen dict = All (λ e. has e.0 seen ≡ false) dict

insert-append :
    (key value : Bytes) (seen : GoMap Bytes Bytes)
    → has key seen ≡ false
    → insert key value seen ≡ seen ++ (key, value) ∷ []
unfolding insert has lookup
insert-append key value [] h = refl
insert-append key value ((k, old) ∷ seen) h = ground (arith, insert-append key value seen)

has-append :
    (other key value : Bytes) (seen : GoMap Bytes Bytes)
    → has other (seen ++ (key, value) ∷ []) ≡ (has other seen || bytes_beq key other)
unfolding has lookup
has-append other key value [] = ground arith
has-append other key value ((k, old) ∷ seen) = ground (arith, has-append other key value seen)

AreNew-append :
    (key value : Bytes) (seen dict : GoMap Bytes Bytes)
    → has key dict ≡ false
    → AreNew seen dict
    → AreNew (seen ++ (key, value) ∷ []) dict
unfolding has lookup
AreNew-append key value seen [] h new = tt
AreNew-append key value seen ((k, v) ∷ dict) h (first, new) = (
  ground (arith, has-append k key value seen, first, bytes_beq_iff key k, bytes_beq_iff k key),
  AreNew-append key value seen dict (ground (arith, h)) new,
)

read_entries-write_entries :
    (header : Bytes) (seen dict : GoMap Bytes Bytes)
    → length header ≡ 4
    → IsWritable dict
    → AreNew seen dict
    → read_entries (length dict) header (write_entries dict) seen ≡ ok (seen ++ dict)
unfolding read_entries write_entries
read_entries-write_entries header seen [] four writable new = ap ok (sym (append-nil seen))
read_entries-write_entries header seen ((key, value) ∷ dict) four
      (once, short_key, short_value, writable) (first, new) =
    let step =
      read_entry-write_entry header key value (write_entries dict) four short_key short_value in
    let inserted = insert-append key value seen first in
    let again =
      read_entries-write_entries (put_uint32 (length value + 1)) (seen ++ (key, value) ∷ []) dict
        (length-put_uint32 (length value + 1)) writable
        (AreNew-append key value seen dict once new) in
    rw (step, inserted) (again ∙ ap ok (append_assoc seen ((key, value) ∷ []) dict))

all_new : (dict : GoMap Bytes Bytes) → AreNew [] dict
unfolding has lookup
all_new [] = tt
all_new (e ∷ dict) = (refl, all_new dict)

-- A dictionary with an entry at least, with at most 2^32 - 1 of them, each key once, and with keys
-- and values that are short enough, is written without an error, and what is written is read back
-- as the same dictionary.
pub unserialize-serialize :
    (dict : GoMap Bytes Bytes)
    → 0 < length dict
    → length dict < 2 ^ 32
    → IsWritable dict
    → (bytes : Bytes) × (serialize dict ≡ ok bytes) × (unserialize bytes ≡ ok dict)
unfolding serialize unserialize
unserialize-serialize dict some_there few writable =
    let count = put_uint32 (length dict) in
    let bytes = count ++ write_entries dict in
    let size : length bytes ≡ 4 + entries_len dict = omega (
      arith,
      length-append count (write_entries dict),
      length-put_uint32 (length dict),
      length-write_entries dict,
    ) in
    let header =
      read_into-append (replicate 4 0) count (write_entries dict)
        (sym (length-put_uint32 (length dict))) in
    let counted = get-put_uint32 (length dict) few in
    (
      bytes,
      ground (arith, size, some_there),
      rw (header, counted)
          (read_entries-write_entries count [] dict (length-put_uint32 (length dict)) writable
            (all_new dict)),
    )
