-- ===== src/Text.antt =====
-- What the program uses of Go's packages strings, strconv and unicode. A text is its code points;
-- those that the program looks for are ASCII, so that the byte offsets that it computes fall where
-- the positions here do.
mod Suffix
unfoldable pub use Suffix.*
use glusterd.Prelude.{
  ℕ, zero, suc, ◌+◌, ◌-◌, ◌*◌, ◌/◌, ◌%◌, ◌^◌, String, Bool, true, false, not, ◌&&◌, ◌||◌, Option,
  none, some, List, [], ◌∷◌, ◌++◌, map, Bytes, codes, bytes_eq, ◌==◌, ltb, leb, nat_beq, length,
  take, Result, ok, err, ◌>>=◌, if◌then◌else◌, ℤ, pos, negsuc, neg,
}

-- `unicode.IsSpace`
abbrev pub is_space : ℕ → Bool
is_space c =
    (leb 9 c && leb c 13)
    || nat_beq c 32
    || nat_beq c 133
    || nat_beq c 160
    || nat_beq c 5760
    || (leb 8192 c && leb c 8202)
    || nat_beq c 8232
    || nat_beq c 8233
    || nat_beq c 8239
    || nat_beq c 8287
    || nat_beq c 12288

-- `unicode.ToLower`, as far as its result is ASCII: a dotted I and the Kelvin sign are such letters
-- too. Any other letter keeps its code, which no ASCII text has either.
abbrev pub to_lower : ℕ → ℕ
to_lower c =
    if leb b'A' c && leb c b'Z'
    then c + 32
    else if nat_beq c 304
    then b'i'
    else if nat_beq c 8490
    then b'k'
    else c

abbrev pub lower : Bytes → Bytes
lower = map to_lower

unfoldable pub trim_left : Bytes → Bytes
trim_left [] = []
trim_left (c ∷ s) = let rest = trim_left s in if is_space c then rest else c ∷ s

unfoldable pub trim_right : Bytes → Bytes
trim_right [] = []
trim_right (c ∷ s) = elim (trim_right s) [
  | [] ↦ if is_space c then [] else c ∷ []
  | d ∷ r ↦ c ∷ d ∷ r
]

-- `strings.TrimSpace`
abbrev pub trim_space : Bytes → Bytes
trim_space s = trim_right (trim_left s)

-- A comparison with each of some words.
unfoldable pub is_one_of : Bytes → List String → Bool
is_one_of s [] = false
is_one_of s (w ∷ ws) = s == codes w || is_one_of s ws

unfoldable pub has_code : ℕ → Bytes → Bool
has_code c [] = false
has_code c (d ∷ s) = nat_beq d c || has_code c s

-- `strings.ContainsAny`
unfoldable pub contains_any : Bytes → Bytes → Bool
unfolding has_code
contains_any [] chars = false
contains_any (c ∷ s) chars = has_code c chars || contains_any s chars

abbrev add_to_first : ℕ → List Bytes → List Bytes
add_to_first c [] = (c ∷ []) ∷ []
add_to_first c (part ∷ parts) = (c ∷ part) ∷ parts

-- `strings.Split` at a single character: never empty.
unfoldable pub split : ℕ → Bytes → List Bytes
split sep [] = [] ∷ []
split sep (c ∷ s) =
    let parts = split sep s in if nat_beq c sep then [] ∷ parts else add_to_first c parts

pub data NumError : Type 0 where
  syntax range : NumError

unfoldable pub digits_value : ℕ → Bytes → Option ℕ
digits_value acc [] = some acc
digits_value acc (c ∷ s) =
    let rest = digits_value (acc * 10 + (c - b'0')) s in
    if leb b'0' c && leb c b'9' then rest else none

abbrev pub unsigned : Bytes → Option ℕ
unsigned [] = none
unsigned (c ∷ s) = digits_value 0 (c ∷ s)

abbrev pub signed : Bool → Option ℕ → Result NumError ℤ
signed negative none = err syntax
signed negative (some n) =
    if negative
    then if ltb (2 ^ 63) n then err range else ok (neg n)
    else if ltb n (2 ^ 63)
    then ok (pos n)
    else err range

-- `strconv.ParseInt(s, 10, 64)`, and `strconv.Atoi`
unfoldable pub parse_int : Bytes → Result NumError ℤ
unfolding digits_value
parse_int [] = err syntax
parse_int (c ∷ s) =
    if nat_beq c b'-'
    then signed true (unsigned s)
    else if nat_beq c b'+'
    then signed false (unsigned s)
    else signed false (unsigned (c ∷ s))

-- The digits of a number in front of a text; 20 rounds are enough below 2 ^ 64.
digits : ℕ → ℕ → Bytes → Bytes
digits zero n s = s
digits (suc fuel) n s =
    let s' = (b'0' + n % 10) ∷ s in
    let rest = digits fuel (n / 10) s' in if ltb n 10 then s' else rest

-- `strconv.Itoa`
unfoldable pub itoa : ℤ → Bytes
unfolding digits
itoa (pos n) = digits 20 n []
itoa (negsuc n) = b'-' ∷ digits 20 (n + 1) []
