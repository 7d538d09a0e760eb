-- ===== src/Hex/RoundTrip.antt =====
-- Bytes printed by `bytes_to_hex` are read back by `hex_to_bytes` (cgo/ctrl.c).
use hardware_os.Base.{
  ℕ, ◌*◌, ◌/◌, ◌%◌, ◌≤◌, ◌<◌, ◌≡◌, refl, ap, subst, leb, true, Option, some, List, [], ◌∷◌, ◌++◌,
  arith, length, drop, All,
}
use hardware_os.Base.Int.{pos}
use hardware_os.Hex.{is_space, hex_digit, hex_to_bytes, hex_char, hex_of}
use hardware_os.Hex.Decode.{both_digits, in_front, decode, IsPlain, IsDecoded, hex_to_bytes-decode}

hex_digit-hex_char : (d : ℕ) → d < 16 → hex_digit (hex_char d) ≡ some d
unfolding hex_digit hex_char
hex_digit-hex_char d h = ground arith

hex_char-IsPlain : (d : ℕ) → d < 16 → IsPlain (hex_char d)
unfolding hex_char is_space
hex_char-IsPlain d h = ground arith

both_digits-hex_char :
    (b : ℕ)
    → b < 256
    → both_digits (hex_digit (hex_char (b / 16))) (hex_digit (hex_char (b % 16))) ≡ some b
unfolding both_digits
both_digits-hex_char b h =
    rw (hex_digit-hex_char (b / 16) (omega arith), hex_digit-hex_char (b % 16) (omega arith))
      (ap some (omega arith))

decode-hex_of : (bs : List ℕ) → All (λ b. b < 256) bs → decode (hex_of bs) ≡ some bs
unfolding decode hex_of in_front
decode-hex_of [] small = refl
decode-hex_of (b ∷ bs) small = rw (both_digits-hex_char b small.0, decode-hex_of bs small.1) refl

hex_of-IsPlain : (bs : List ℕ) → All (λ b. b < 256) bs → All IsPlain (hex_of bs)
unfolding hex_of
hex_of-IsPlain [] small = tt
hex_of-IsPlain (b ∷ bs) small = (
  hex_char-IsPlain (b / 16) (omega arith),
  (hex_char-IsPlain (b % 16) (omega arith), hex_of-IsPlain bs small.1),
)

length-hex_of : (bs : List ℕ) → length (hex_of bs) ≡ 2 * length bs
unfolding hex_of
length-hex_of [] = refl
length-hex_of (b ∷ bs) = omega (arith, length-hex_of bs)

-- A byte string that fits the buffer, written by `bytes_to_hex` and read by `hex_to_bytes`, is
-- returned: its length is the result and the buffer begins with it, the rest of the buffer as it
-- was. The text has to be within the 4096 characters that the reader looks at.
pub hex_to_bytes-hex_of :
    (bs buf : List ℕ) (max_len : ℕ)
    → All (λ b. b < 256) bs
    → length bs ≤ 2048
    → length bs ≤ max_len
    → max_len ≤ length buf
    → hex_to_bytes (hex_of bs) buf max_len ≡ (pos (length bs), bs ++ drop (length bs) buf)
hex_to_bytes-hex_of bs buf max_len small short fits room =
    let within : leb (length bs) max_len ≡ true = ground arith in
    let decoded : IsDecoded (some bs) buf max_len (hex_to_bytes (hex_of bs) buf max_len) =
      subst
        (λ (o : Option (List ℕ)). IsDecoded o buf max_len (hex_to_bytes (hex_of bs) buf max_len))
        (decode-hex_of bs small)
        (hex_to_bytes-decode (hex_of bs) buf max_len (hex_of-IsPlain bs small)
          (omega (arith, length-hex_of bs)) room) in
    rw within at decoded
