-- ===== src/Hex/Decode.antt =====
-- `hex_to_bytes` (cgo/ctrl.c) compared with a decoder by pairs of digits.
use mathlib.Core.Path.{subst₂}
use hardware_os.Base.{
  ℕ, zero, suc, ◌+◌, ◌*◌, ◌/◌, ◌%◌, ◌≤◌, ◌<◌, min, ◌≡◌, ◌≢◌, refl, ap, ap₂, ◌∙◌, inl, inr, true,
  false, if◌then◌else◌, Option, none, some, List, [], ◌∷◌, ◌++◌, arith, ◌==◌, ltb, leb, length, set,
  drop, All, length-append, Option-cases, Bool-cases, not, ◌||◌, sym,
}
use hardware_os.Base.Int.{ℤ, pos, negsuc}
use hardware_os.Hex.{
  accept, convert_digits, digits_loop, hex_digit, is_space, byte_of, hex_loop, hex_to_bytes,
}

unfoldable pub both_digits : Option ℕ → Option ℕ → Option ℕ
both_digits (some x) (some y) = some (x * 16 + y)
both_digits _ _ = none

unfoldable pub in_front : Option ℕ → Option (List ℕ) → Option (List ℕ)
in_front (some v) (some bs) = some (v ∷ bs)
in_front _ _ = none

-- The bytes that the pairs of digits stand for, if the text is nothing but such pairs.
unfoldable pub decode : List ℕ → Option (List ℕ)
unfolding both_digits in_front
decode [] = some []
decode (a ∷ []) = none
decode (a ∷ b ∷ cs) = in_front (both_digits (hex_digit a) (hex_digit b)) (decode cs)

-- Neither white space nor a sign.
abbrev pub IsPlain : ℕ → Type 0
IsPlain c = (is_space c ≡ false) × (c ≢ b'+') × (c ≢ b'-')

digit_lt : (c v : ℕ) → hex_digit c ≡ some v → v < 16
unfolding hex_digit
digit_lt c v h = ground arith

no_sign : (c k : ℕ) → c ≢ k → (c == k) ≡ false
no_sign c k h = ground arith

plain_pair :
    (a b : ℕ) → IsPlain a → byte_of a b ≡ accept (convert_digits (a ∷ b ∷ []) false (a ∷ b ∷ []))
unfolding byte_of
plain_pair a b (space, plus, minus) = rw (space, no_sign a b'-' minus, no_sign a b'+' plus) refl

byte_of-both_digits : (a b : ℕ) → IsPlain a → byte_of a b ≡ both_digits (hex_digit a) (hex_digit b)
unfolding accept convert_digits digits_loop both_digits
byte_of-both_digits a b plain = plain_pair a b plain ∙ elim (Option-cases (hex_digit a)) [
  | inl none_a ↦ rw (convert_digits, none_a) refl
  | inr (x, some_a) ↦ elim (Option-cases (hex_digit b)) [
    | inl none_b ↦ rw (convert_digits, some_a, digits_loop, some_a, digits_loop, none_b) refl
    | inr (y, some_b) ↦
        let small : x * 16 + y ≤ 255 = omega (arith, digit_lt a x some_a, digit_lt b y some_b) in
        rw (convert_digits, some_a, digits_loop, some_a, digits_loop, some_b) (ground arith)
  ]
]

set-append : (xs ys : List ℕ) (y v : ℕ) → set (xs ++ y ∷ ys) (length xs) v ≡ xs ++ v ∷ ys
set-append [] ys y v = refl
set-append (x ∷ xs) ys y v = ap (λ (t : List ℕ). x ∷ t) (set-append xs ys y v)

append_shift : (xs ys : List ℕ) (v : ℕ) → (xs ++ v ∷ []) ++ ys ≡ xs ++ v ∷ ys
append_shift [] ys v = refl
append_shift (x ∷ xs) ys v = ap (λ (t : List ℕ). x ∷ t) (append_shift xs ys v)

-- What the loop makes of a text, in a buffer of which it has filled the front.
abbrev LoopAgrees : Option (List ℕ) → List ℕ → List ℕ → ℤ × List ℕ → Type 0
LoopAgrees none front back r = r.0 ≡ negsuc 0
LoopAgrees (some bs) front back r =
    r ≡ (pos (length front + length bs), front ++ (bs ++ drop (length bs) back))

-- One more byte in front.
agrees_in_front :
    (v y : ℕ) (rest : Option (List ℕ)) (front back : List ℕ) (r : ℤ × List ℕ)
    → LoopAgrees rest (front ++ v ∷ []) back r
    → LoopAgrees (in_front (some v) rest) front (y ∷ back) r
unfolding in_front
agrees_in_front v y none front back r h = h
agrees_in_front v y (some bs) front back r h =
    h
    ∙ ap₂ (λ (n : ℕ) (t : List ℕ). (pos n, t)) (omega (arith, length-append front (v ∷ [])))
        (append_shift front (bs ++ drop (length bs) back) v)

hex_loop-decode :
    (k : ℕ) (cs front back : List ℕ)
    → All IsPlain cs
    → length cs ≡ 2 * k
    → k ≤ length back
    → LoopAgrees (decode cs) front back (hex_loop k cs (front ++ back) (length front))
unfolding hex_loop decode
hex_loop-decode zero [] front back plain even room =
    ap (λ (n : ℕ). (pos n, front ++ back)) (omega arith)
hex_loop-decode zero (c ∷ cs) front back plain even room = absurd (omega arith)
hex_loop-decode (suc k) [] front back plain even room = absurd (omega arith)
hex_loop-decode (suc k) (c ∷ []) front back plain even room = absurd (omega arith)
hex_loop-decode (suc k) (a ∷ b ∷ cs) front [] plain even room = absurd (omega arith)
hex_loop-decode (suc k) (a ∷ b ∷ cs) front (y ∷ back) plain even room =
    let same = byte_of-both_digits a b plain.0 in
    elim (Option-cases (both_digits (hex_digit a) (hex_digit b))) [
      | inl bad ↦ rw (bad, same ∙ bad, hex_loop) refl
      | inr (v, good) ↦
          rw (good, same ∙ good, hex_loop, set-append front back y v)
            (agrees_in_front v y (decode cs) front back _ (
              subst₂
                (λ (out : List ℕ) (j : ℕ).
                  LoopAgrees (decode cs) (front ++ v ∷ []) back (hex_loop k cs out j))
                (append_shift front back v) (length-append front (v ∷ []))
                (hex_loop-decode k cs (front ++ v ∷ []) back plain.1.1 (omega arith)
                  (omega arith))))
    ]

-- The result of `hex_to_bytes` on a text, by what the text stands for: -1 where that is nothing or
-- does not fit, and else the number of bytes, with the bytes at the front of the buffer.
abbrev pub IsDecoded : Option (List ℕ) → List ℕ → ℕ → ℤ × List ℕ → Type 0
IsDecoded none buf max_len r = r.0 ≡ negsuc 0
IsDecoded (some bs) buf max_len r =
    if leb (length bs) max_len
    then r ≡ (pos (length bs), bs ++ drop (length bs) buf)
    else r ≡ (negsuc 0, buf)

in_front-some :
    (o : Option ℕ) (rest : Option (List ℕ)) (bs : List ℕ)
    → in_front o rest ≡ some bs
    → (ds : List ℕ) × (rest ≡ some ds) × (length bs ≡ suc (length ds))
unfolding in_front
in_front-some none rest bs h = cc
in_front-some (some v) none bs h = cc
in_front-some (some v) (some ds) bs h =
    let same : v ∷ ds ≡ bs = cc in (ds, refl, ap length (sym same))

length-decode : (s bs : List ℕ) → decode s ≡ some bs → length s ≡ 2 * length bs
unfolding decode
length-decode [] bs h = let same : [] ≡ bs = cc in ap (λ (t : List ℕ). 2 * length t) same
length-decode (a ∷ []) bs h = cc
length-decode (a ∷ b ∷ cs) bs h =
    let (ds, rest, longer) =
      in_front-some (both_digits (hex_digit a) (hex_digit b)) (decode cs) bs h in
    omega (arith, longer, length-decode cs ds rest)

-- `hex_to_bytes` on a text without white space and signs, of at most 4096 characters, does what the
-- decoder by pairs of digits says: -1 where the text is anything but pairs of hexadecimal digits, or
-- the bytes do not fit into `max_len`; else their number, and the bytes stand at the front of the
-- buffer, the rest of it as it was, where the buffer has room for `max_len` bytes.
pub hex_to_bytes-decode :
    (s buf : List ℕ) (max_len : ℕ)
    → All IsPlain s
    → length s ≤ 4096
    → max_len ≤ length buf
    → IsDecoded (decode s) buf max_len (hex_to_bytes s buf max_len)
unfolding hex_to_bytes
hex_to_bytes-decode s buf max_len plain short room =
    let whole : min (length s) 4096 ≡ length s = omega arith in
    elim (Bool-cases (not (length s % 2 == 0) || ltb max_len (length s / 2))) [
      | inl bad ↦
          rw (whole, bad) (refused (decode s) (λ bs e. too_long bs (length-decode s bs e) bad))
      | inr good ↦
          let even : length s ≡ 2 * (length s / 2) = ground arith in
          rw (whole, good)
            (taken (decode s) _ (λ bs e. fits bs (length-decode s bs e) good)
              (hex_loop-decode (length s / 2) s [] buf plain even (ground arith)))
    ]
  where
    too_long :
        (bs : List ℕ)
        → length s ≡ 2 * length bs
        → (not (length s % 2 == 0) || ltb max_len (length s / 2)) ≡ true
        → leb (length bs) max_len ≡ false
    too_long bs e bad =
        let even : length s % 2 ≡ 0 = omega arith in
        let half : length s / 2 ≡ length bs = omega arith in ground arith

    fits :
        (bs : List ℕ)
        → length s ≡ 2 * length bs
        → (not (length s % 2 == 0) || ltb max_len (length s / 2)) ≡ false
        → leb (length bs) max_len ≡ true
    fits bs e good = let half : length s / 2 ≡ length bs = omega arith in ground arith

    refused :
        (o : Option (List ℕ))
        → ((bs : List ℕ) → o ≡ some bs → leb (length bs) max_len ≡ false)
        → IsDecoded o buf max_len (negsuc 0, buf)
    refused none h = refl
    refused (some bs) h = rw (h bs refl) refl

    taken :
        (o : Option (List ℕ)) (r : ℤ × List ℕ)
        → ((bs : List ℕ) → o ≡ some bs → leb (length bs) max_len ≡ true)
        → LoopAgrees o [] buf r
        → IsDecoded o buf max_len r
    taken none r h agrees = agrees
    taken (some bs) r h agrees =
        rw (h bs refl) (agrees ∙ ap (λ (n : ℕ). (pos n, bs ++ drop (length bs) buf)) (omega arith))
