-- ===== src/Hex.antt =====
-- The hexadecimal text that carries an EDID between the Go side and the C side:
-- `hex_to_bytes` and `bytes_to_hex` of targets/rv1106/native/cgo/ctrl.c, and the part of the C
-- library's `strtol` that they use. A C string is the list of its bytes before the terminator.
pub mod Accept
pub mod Decode
pub mod RoundTrip
use hardware_os.Base.{
  ℕ, zero, suc, ◌+◌, ◌-◌, ◌*◌, ◌/◌, ◌%◌, min, Bool, true, false, ◌&&◌, ◌||◌, not, Option, none,
  some, List, [], ◌∷◌, ltb, leb, ◌==◌, if◌then◌else◌, length, set, take,
}
use hardware_os.Base.Int.{ℤ, pos, negsuc, neg}

-- The value of a hexadecimal digit.
unfoldable pub hex_digit : ℕ → Option ℕ
hex_digit c =
    if leb b'0' c && leb c b'9'
    then some (c - b'0')
    else if leb b'a' c && leb c b'f'
    then some (c - 87)
    else if leb b'A' c && leb c b'F'
    then some (c - 55)
    else none

-- `isspace` in the C locale.
unfoldable pub is_space : ℕ → Bool
is_space c = c == 32 || (leb 9 c && leb c 13)

skip_space : List ℕ → List ℕ
skip_space [] = []
skip_space (c ∷ cs) = if is_space c then skip_space cs else c ∷ cs

-- An optional sign: whether it is a minus, and what follows.
take_sign : List ℕ → Bool × List ℕ
take_sign [] = (false, [])
take_sign (c ∷ cs) =
    if c == b'-' then (true, cs) else if c == b'+' then (false, cs) else (false, c ∷ cs)

-- An optional `0x`, which counts only before a digit.
skip_prefix : List ℕ → List ℕ
skip_prefix (z ∷ x ∷ d ∷ cs) =
    if z == b'0' && (x == b'x' || x == b'X')
    then elim (hex_digit d) [ some v ↦ d ∷ cs | none ↦ z ∷ x ∷ d ∷ cs ]
    else z ∷ x ∷ d ∷ cs
skip_prefix cs = cs

digits_loop : ℕ → List ℕ → ℕ × List ℕ
digits_loop acc [] = (acc, [])
digits_loop acc (c ∷ cs) = elim (hex_digit c) [
  | some d ↦ digits_loop (acc * 16 + d) cs
  | none ↦ (acc, c ∷ cs)
]

-- The digits, if there is one; else the whole text `s` is left over.
convert_digits : List ℕ → Bool → List ℕ → ℤ × List ℕ
convert_digits s minus [] = (pos 0, s)
convert_digits s minus (c ∷ cs) = elim (hex_digit c) [
  | none ↦ (pos 0, s)
  | some d ↦ let (n, rest) = digits_loop 0 (c ∷ cs) in (if minus then neg n else pos n, rest)
]

-- `strtol(s, &end, 16)`: the value, and the text from `end` on. It is used on two characters, so
-- the range of a `long` is never met.
pub strtol16 : List ℕ → ℤ × List ℕ
unfolding hex_digit is_space skip_space take_sign skip_prefix digits_loop convert_digits
strtol16 s = let (minus, t) = take_sign (skip_space s) in convert_digits s minus (skip_prefix t)

-- The test on one pair of characters: nothing left over, and 0 ≤ value ≤ 255.
accept : ℤ × List ℕ → Option ℕ
accept (pos n, []) = if leb n 255 then some n else none
accept _ = none

pub byte_of : ℕ → ℕ → Option ℕ
unfolding strtol16 accept
byte_of a b = accept (strtol16 (a ∷ b ∷ []))

-- The loop over the pairs: `i / 2` is `j`, and the text from `hex_str + i` on is the list. The
-- clauses for a text that ends too soon are never met, as the rounds are half its length.
hex_loop : ℕ → List ℕ → List ℕ → ℕ → ℤ × List ℕ
hex_loop zero cs bytes j = (pos j, bytes)
hex_loop (suc k) [] bytes j = (negsuc 0, bytes)
hex_loop (suc k) (a ∷ []) bytes j = (negsuc 0, bytes)
hex_loop (suc k) (a ∷ b ∷ cs) bytes j = elim (byte_of a b) [
  | none ↦ (negsuc 0, bytes)
  | some v ↦ hex_loop k cs (set bytes j v) (j + 1)
]

-- The returned `int`, and the buffer `bytes` after the call.
unfoldable pub hex_to_bytes : List ℕ → List ℕ → ℕ → ℤ × List ℕ
unfolding hex_loop
hex_to_bytes hex_str bytes max_len =
    let hex_len = min (length hex_str) 4096 in
    if not (hex_len % 2 == 0) || ltb max_len (hex_len / 2)
    then (negsuc 0, bytes)
    else hex_loop (hex_len / 2) hex_str bytes 0

pub hex_char : ℕ → ℕ
hex_char d = if ltb d 10 then b'0' + d else 87 + d

-- `snprintf(…, 3, "%02x", byte)` for each byte.
unfoldable pub hex_of : List ℕ → List ℕ
hex_of [] = []
hex_of (b ∷ bs) = hex_char (b / 16) ∷ hex_char (b % 16) ∷ hex_of bs

-- `none` is NULL. `allocated` says whether `malloc` succeeds.
unfoldable pub bytes_to_hex : Bool → Option (List ℕ) → ℕ → Option (List ℕ)
bytes_to_hex allocated none len = none
bytes_to_hex allocated (some bytes) len =
    if len == 0 then none else if allocated then some (hex_of (take len bytes)) else none
