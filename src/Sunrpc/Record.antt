-- ===== src/Sunrpc/Record.antt =====
-- pkg/sunrpc/record.go: an RPC message as a record of fragments. The connection is the bytes that
-- are still to come, or those that were written; a write succeeds in full.
pub mod Fragments
use glusterd.Prelude.{
  Bytes, ℕ, zero, suc, ◌+◌, ◌-◌, ◌/◌, ◌%◌, ◌^◌, Bool, true, false, not, ◌&&◌, List, [], ◌∷◌, ◌++◌,
  length, take, drop, nat_beq, ltb, leb, Result, ok, err, if◌then◌else◌,
}
use glusterd.Sunrpc.Dict.{put_uint32, get_uint32}

abbrev pub max_record_fragment_size : ℕ
max_record_fragment_size = 2147483647

abbrev pub max_record_size : ℕ
max_record_size = 1048576

pub is_last_fragment : ℕ → Bool
is_last_fragment fragment_header = nat_beq (fragment_header / 2 ^ 31) 1

-- The bit 31 is cleared.
unfoldable pub get_fragment_size : ℕ → ℕ
get_fragment_size fragment_header = fragment_header % 2 ^ 31

pub create_fragment_header : ℕ → Bool → ℕ
create_fragment_header size last_fragment =
    let fragment_header = size % 2 ^ 31 in
    if last_fragment then fragment_header + 2 ^ 31 else fragment_header

pub data RecordError : Type 0 where
  end_of_file : RecordError
  invalid_fragment_size : RecordError
  message_size_exceeded : RecordError
  -- a slice out of range
  panicked : RecordError
  -- the loop was cut off by the fuel
  cut_off : RecordError

-- `uint32(minOf(maxRecordFragmentSize, dataSize - total))`; the difference can be negative.
pub fragment_size : ℕ → ℕ → ℕ
fragment_size data_size total =
    if leb total data_size
    then if ltb max_record_fragment_size (data_size - total)
      then max_record_fragment_size
      else data_size - total
    else 2 ^ 32 - (total - data_size)

-- The loop of `WriteFullRecord`: the bytes sent so far, and the count. The capacity of the message
-- is taken to be its length.
pub write_loop : ℕ → Bytes → ℕ → Bytes → Result RecordError (Bytes × ℕ)
write_loop zero message total sent = err cut_off
write_loop (suc fuel) message total sent =
    let size = fragment_size (length message) total in
    let last = leb (length message) (total + max_record_fragment_size) in
    let sent' =
      sent ++ (put_uint32 (create_fragment_header size last) ++ drop total (take size message)) in
    let total' = total + (4 + (size - total)) in
    let rest = write_loop fuel message total' sent' in
    if leb total size && leb size (length message)
    then if last then ok (sent', total') else rest
    else err panicked

-- Two rounds are enough.
pub write_full_record : Bytes → Result RecordError (Bytes × ℕ)
write_full_record message = write_loop 2 message 0 []

-- The loop of `ReadFullRecord`; what is left on the connection is part of the result.
unfoldable pub read_loop : ℕ → Bytes → Bytes → Result RecordError (Bytes × Bytes)
read_loop zero record_so_far conn = err cut_off
read_loop (suc fuel) record_so_far conn =
    let header = get_uint32 (take 4 conn) in
    let size = get_fragment_size header in
    let body = drop 4 conn in
    let record_so_far' = record_so_far ++ take size body in
    let conn' = drop size body in
    let again = read_loop fuel record_so_far' conn' in
    if ltb (length conn) 4
    then err end_of_file
    else if ltb max_record_fragment_size size
    then err invalid_fragment_size
    else if ltb (max_record_size - length record_so_far) size
    then err message_size_exceeded
    else if ltb (length body) size
    then err end_of_file
    else if is_last_fragment header
    then ok (record_so_far', conn')
    else again

-- A fragment takes four bytes at least, so there are no more rounds than bytes.
unfoldable pub read_full_record : Bytes → Result RecordError (Bytes × Bytes)
read_full_record conn = read_loop (suc (length conn)) [] conn
