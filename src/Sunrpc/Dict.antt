-- ===== src/Sunrpc/Dict.antt =====
-- glusterd2/servers/sunrpc/dict/dict.go: dictionaries as bytes. A byte is a number below 256, and a
-- Go string is its bytes.
pub mod RoundTrip
use glusterd.Prelude.{
  Bytes, bytes_eq, bytes_beq, ℕ, zero, suc, ◌+◌, ◌-◌, ◌*◌, ◌/◌, ◌%◌, ◌^◌, ◌≡◌, ◌↔◌, refl, Bool,
  true, false, ◌&&◌, ◌||◌, List, [], ◌∷◌, ◌++◌, length, take, replicate, nat_beq, Result, ok, err,
  ◌>>=◌, if◌then◌else◌, Eq, arith, nat_beq_iff,
}
use glusterd.GoMap.{GoMap, insert}

pub data DictError : Type 0 where
  empty_dict : DictError
  size_mismatch : DictError
  -- a slice bound that is negative
  panicked : DictError

-- `binary.BigEndian.PutUint32` of a number that is converted to `uint32`
unfoldable pub put_uint32 : ℕ → Bytes
put_uint32 n = n / 2 ^ 24 % 256 ∷ n / 2 ^ 16 % 256 ∷ n / 2 ^ 8 % 256 ∷ n % 256 ∷ []

-- `binary.BigEndian.Uint32`, of a slice of four
unfoldable pub get_uint32 : Bytes → ℕ
get_uint32 (a ∷ b ∷ c ∷ d ∷ rest) = ((a * 256 + b) * 256 + c) * 256 + d
get_uint32 _ = 0

-- `reader.Read(buf)`: the front of the buffer is overwritten by what is left, as far as it goes.
-- The error at the end is dropped.
unfoldable pub read_into : Bytes → Bytes → Bytes × Bytes
read_into [] rest = ([], rest)
read_into (b ∷ buf) [] = (b ∷ buf, [])
read_into (b ∷ buf) (x ∷ rest) = let (buf', rest') = read_into buf rest in (x ∷ buf', rest')

-- `s[:len(s)-1]`, where the length is not 0
abbrev pub but_last : Bytes → Bytes
but_last s = take (length s - 1) s

pub record Entry : Type 0 where
  pub key : Bytes
  pub value : Bytes
  pub header : Bytes
  pub rest : Bytes

-- One round of the loop of `Unserialize`.
unfoldable pub read_entry : Bytes → Bytes → Result DictError Entry
read_entry header rest =
    let (header₁, rest₁) = read_into header rest in
    let key_len = (get_uint32 header₁ + 1) % 2 ^ 32 in
    let (header₂, rest₂) = read_into header₁ rest₁ in
    let value_len = get_uint32 header₂ in
    let (key, rest₃) = read_into (replicate key_len 0) rest₂ in
    let (value, rest₄) = read_into (replicate value_len 0) rest₃ in
    if nat_beq key_len 0 || nat_beq value_len 0
    then err panicked
    else ok (record { key = but_last key; value = but_last value; header = header₂; rest = rest₄ })

unfoldable pub read_entries :
    ℕ → Bytes → Bytes → GoMap Bytes Bytes → Result DictError (GoMap Bytes Bytes)
read_entries zero header rest dict = ok dict
read_entries (suc left) header rest dict =
    read_entry header rest >>= λ e. read_entries left e.header e.rest (insert e.key e.value dict)

-- A count of four bytes is not negative as an `int`.
unfoldable pub unserialize : Bytes → Result DictError (GoMap Bytes Bytes)
unserialize buf =
    let (header, rest) = read_into (replicate 4 0) buf in
    read_entries (get_uint32 header) header rest []

-- The bytes of an entry, in front of those that follow.
pub write_entry : Bytes → Bytes → Bytes → Bytes
write_entry key value rest =
    put_uint32 (length key) ++ (put_uint32 (length value + 1) ++ (key ++ 0 ∷ (value ++ 0 ∷ rest)))

pub write_entries : GoMap Bytes Bytes → Bytes
write_entries [] = []
write_entries ((key, value) ∷ dict) = write_entry key value (write_entries dict)

-- The sum of `getSerializedDictLen`.
pub entries_len : GoMap Bytes Bytes → ℕ
entries_len [] = 0
entries_len ((key, value) ∷ dict) =
    let rest = entries_len dict in 4 + 4 + (length key + 1 + (length value + 1)) + rest

pub serialize : GoMap Bytes Bytes → Result DictError Bytes
serialize dict =
    let bytes = put_uint32 (length dict) ++ write_entries dict in
    if nat_beq (length dict) 0
    then err empty_dict
    else if nat_beq (4 + entries_len dict) (length bytes)
    then ok bytes
    else err size_mismatch
