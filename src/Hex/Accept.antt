-- ===== src/Hex/Accept.antt =====
-- What `hex_to_bytes` (cgo/ctrl.c) accepts and refuses.
use hardware_os.Base.{
  ℕ, zero, suc, ◌+◌, ◌*◌, ◌/◌, ◌%◌, ◌≤◌, ◌<◌, min, ◌≡◌, refl, sym, ap, ◌∙◌, subst, ◌⊎◌, inl, inr,
  true, not, ◌||◌, some, List, [], ◌∷◌, arith, ltb, ◌==◌, Bool-cases, Option-cases, le→ltb_false,
  length, set, All, length-set,
}
use hardware_os.Base.Int.{ℤ, pos, negsuc}
use hardware_os.Hex.{hex_digit, strtol16, accept, byte_of, is_space, hex_loop, hex_to_bytes}

-- A white-space character or a plus sign.
abbrev IsPadding : ℕ → Type 0
IsPadding c = (is_space c ≡ true) ⊎ (c ≡ b'+')

hex_digit-lt : (c v : ℕ) → hex_digit c ≡ some v → v < 16
unfolding hex_digit
hex_digit-lt c v h = ground arith

-- A pair of characters that is no hexadecimal number, padding and one digit, is read as a byte.
byte_of_padding : (w d v : ℕ) → IsPadding w → hex_digit d ≡ some v → byte_of w d ≡ some v
unfolding byte_of hex_digit is_space
byte_of_padding w d v pad digit = ground arith

accept-lt : (r : ℤ × List ℕ) (v : ℕ) → accept r ≡ some v → v < 256
unfolding accept
accept-lt (pos n, []) v h = ground arith
accept-lt (pos n, c ∷ cs) v h = cc
accept-lt (negsuc n, cs) v h = cc

byte_of-lt : (a b v : ℕ) → byte_of a b ≡ some v → v < 256
unfolding byte_of
byte_of-lt a b v h = accept-lt (strtol16 (a ∷ b ∷ [])) v h

-- `hex_to_bytes` takes a white-space character or a plus sign before one digit for a byte,
-- although the two characters are no pair of hexadecimal digits.
hex_to_bytes_padding :
    (w d v x m : ℕ) (buf : List ℕ)
    → IsPadding w
    → hex_digit d ≡ some v
    → hex_to_bytes (w ∷ d ∷ []) (x ∷ buf) (suc m) ≡ (pos 1, v ∷ buf)
unfolding hex_to_bytes
hex_to_bytes_padding w d v x m buf pad digit =
    rw (le→ltb_false (suc m) 1 (omega arith), byte_of_padding w d v pad digit, hex_loop) refl

All-set :
    (xs : List ℕ) (i v : ℕ) → All (λ b. b < 256) xs → v < 256 → All (λ b. b < 256) (set xs i v)
All-set [] i v h small = tt
All-set (x ∷ xs) zero v h small = (small, h.1)
All-set (x ∷ xs) (suc i) v h small = (h.0, All-set xs i v h.1 small)

hex_loop_sound :
    (k : ℕ) (cs bytes : List ℕ) (j n : ℕ) (out : List ℕ)
    → All (λ b. b < 256) bytes
    → hex_loop k cs bytes j ≡ (pos n, out)
    → (n ≡ j + k) × (length out ≡ length bytes) × All (λ b. b < 256) out
unfolding hex_loop
hex_loop_sound zero cs bytes j n out small h = (
  ground arith,
  ap length (sym (ap (λ (t : ℤ × List ℕ). t.1) h)),
  subst (All (λ b. b < 256)) (ap (λ (t : ℤ × List ℕ). t.1) h) small,
)
hex_loop_sound (suc k) [] bytes j n out small h = cc
hex_loop_sound (suc k) (a ∷ []) bytes j n out small h = cc
hex_loop_sound (suc k) (a ∷ b ∷ cs) bytes j n out small h = elim (Option-cases (byte_of a b)) [
  | inl bad ↦ cc (rw (bad, hex_loop) at h)
  | inr (v, good) ↦
      let (e, l, s) =
        hex_loop_sound k cs (set bytes j v) (j + 1) n out
          (All-set bytes j v small (byte_of-lt a b v good)) (rw (good, hex_loop) at h) in
      (omega (arith, e), l ∙ length-set bytes j v, s)
]

-- Where `hex_to_bytes` returns n ≥ 0, n is half the length of the text (of its first 4096
-- characters, if it is longer) and at most `max_len`; the buffer keeps its length, and holds bytes
-- if it did before.
pub hex_to_bytes_sound :
    (s buf : List ℕ) (max_len n : ℕ) (out : List ℕ)
    → All (λ b. b < 256) buf
    → hex_to_bytes s buf max_len ≡ (pos n, out)
    → (2 * n ≡ min (length s) 4096)
      × (n ≤ max_len)
      × (length out ≡ length buf)
      × All (λ b. b < 256) out
unfolding hex_to_bytes
hex_to_bytes_sound s buf max_len n out small h =
    let hex_len : ℕ = min (length s) 4096 in
    elim (Bool-cases (not (hex_len % 2 == 0) || ltb max_len (hex_len / 2))) [
      | inl bad ↦ cc (rw bad at h)
      | inr good ↦
          let (e, l, t) = hex_loop_sound (hex_len / 2) s buf 0 n out small (rw good at h) in
          (ground (arith, e), ground (arith, e), l, t)
    ]
