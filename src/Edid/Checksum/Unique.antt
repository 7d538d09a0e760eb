-- ===== src/Edid/Checksum/Unique.antt =====
-- The checksums of an EDID are the only ones that fit (cgo/edid.c).
use hardware_os.Base.{
  ℕ, zero, suc, ◌+◌, ◌-◌, ◌*◌, ◌/◌, ◌%◌, ◌≤◌, ◌<◌, ◌≡◌, ◌≢◌, refl, sym, ap, ◌∙◌, ◌⊎◌, inl, inr,
  List, [], ◌∷◌, arith, length, get_or, take, drop, sum, subst, set, Bool-cases, ◌==◌, ==_iff,
}
use hardware_os.Edid.{sum_loop, fix_loop, fix_edid_checksum}
use hardware_os.Edid.Checksum.{
  sum_loop_slice, sum_loop-suc, sum_loop-lt, fix_edid_checksum_sums, fix_edid_checksum_other,
}

-- The loop sees only the bytes in its range.
sum_loop_agrees :
    (k at acc : ℕ) (xs ys : List ℕ)
    → ((i : ℕ) → at ≤ i → i < at + k → get_or xs i 0 ≡ get_or ys i 0)
    → sum_loop xs k at acc ≡ sum_loop ys k at acc
unfolding sum_loop
sum_loop_agrees zero at acc xs ys same = refl
sum_loop_agrees (suc k) at acc xs ys same = rw (same at (omega arith) (omega arith)) (
    sum_loop_agrees k (at + 1) ((acc + get_or ys at 0) % 256) xs ys
      (λ i lo hi. same i (omega arith) (omega arith)))

-- A byte at the end of a block is what the others of the block make it.
last_byte :
    (edid : List ℕ) (b : ℕ)
    → get_or edid (b * 128 + 127) 0 < 256
    → sum (take 128 (drop (b * 128) edid)) % 256 ≡ 0
    → get_or edid (b * 128 + 127) 0 ≡ (256 - sum_loop edid 127 (b * 128) 0) % 256
last_byte edid b byte zero_sum =
    let whole : sum_loop edid 128 (b * 128) 0 ≡ 0 =
      sum_loop_slice 128 (b * 128) 0 edid (omega arith)
      ∙ ap (λ (n : ℕ). n % 256) (omega arith)
      ∙ zero_sum in
    omega (
      arith,
      whole,
      sum_loop-suc 127 (b * 128) 0 edid,
      sum_loop-lt 127 (b * 128) 0 edid (omega arith),
    )

get_or-set-lt :
    (xs : List ℕ) (i j v : ℕ)
    → v < 256
    → ((k : ℕ) → get_or xs k 0 < 256)
    → get_or (set xs i v) j 0 < 256
get_or-set-lt [] i j v small bytes = bytes j
get_or-set-lt (x ∷ xs) zero zero v small bytes = small
get_or-set-lt (x ∷ xs) zero (suc j) v small bytes = bytes (suc j)
get_or-set-lt (x ∷ xs) (suc i) zero v small bytes = bytes zero
get_or-set-lt (x ∷ xs) (suc i) (suc j) v small bytes =
    get_or-set-lt xs i j v small (λ k. bytes (suc k))

fix_loop-lt :
    (k block j : ℕ) (edid : List ℕ)
    → ((i : ℕ) → get_or edid i 0 < 256)
    → get_or (fix_loop edid k block) j 0 < 256
unfolding fix_loop
fix_loop-lt zero block j edid bytes = bytes j
fix_loop-lt (suc k) block j edid bytes =
    let c : ℕ = (256 - sum_loop edid 127 (block * 128) 0) % 256 in
    fix_loop-lt k (block + 1) j (set edid (block * 128 + 127) c)
      (λ i. get_or-set-lt edid (block * 128 + 127) i c (omega arith) bytes)

fixed-lt :
    (size j : ℕ) (edid : List ℕ)
    → ((i : ℕ) → get_or edid i 0 < 256)
    → get_or (fix_edid_checksum edid size) j 0 < 256
unfolding fix_edid_checksum
fixed-lt size j edid bytes = fix_loop-lt (size / 128) 0 j edid bytes

-- `fix_edid_checksum` gives the only EDID with these data and right checksums: bytes that are those of
-- the EDID but at the ends of the blocks, and that sum to 0 modulo 256 in every block, are those of the
-- fixed EDID, in all its blocks. The EDID is one of bytes, and its buffer has room for the size.
pub fix_edid_checksum_unique :
    (edid other : List ℕ) (size i : ℕ)
    → ((j : ℕ) → get_or edid j 0 < 256)
    → ((j : ℕ) → get_or other j 0 < 256)
    → size ≤ length edid
    → ((j : ℕ) → j % 128 ≢ 127 → get_or other j 0 ≡ get_or edid j 0)
    → ((b : ℕ) → b < size / 128 → sum (take 128 (drop (b * 128) other)) % 256 ≡ 0)
    → i < size / 128 * 128
    → get_or other i 0 ≡ get_or (fix_edid_checksum edid size) i 0
fix_edid_checksum_unique edid other size i bytes other_bytes room agree sums h =
    elim (end_or_data i) [
      | inr within ↦ agree i within ∙ sym (fix_edid_checksum_other edid size i within)
      | inl (b, e) ↦
          let fixed = fix_edid_checksum edid size in
          let block : b < size / 128 = omega arith in
          let loops : sum_loop other 127 (b * 128) 0 ≡ sum_loop fixed 127 (b * 128) 0 =
            sum_loop_agrees 127 (b * 128) 0 other fixed (λ j lo hi.
              let within : j % 128 ≢ 127 = λ bad. absurd (omega arith) in
              agree j within ∙ sym (fix_edid_checksum_other edid size j within)) in
          subst (λ (n : ℕ). get_or other n 0 ≡ get_or fixed n 0) (sym e)
            (last_byte other b (other_bytes (b * 128 + 127)) (sums b block)
              ∙ ap (λ (n : ℕ). (256 - n) % 256) loops
              ∙ sym (
                  last_byte fixed b (fixed-lt size (b * 128 + 127) edid bytes)
                    (fix_edid_checksum_sums edid size b room block)))
    ]
  where
    end_or_data : (i : ℕ) → ((b : ℕ) × (i ≡ b * 128 + 127)) ⊎ (i % 128 ≢ 127)
    end_or_data i = elim (Bool-cases (i % 128 == 127)) [
      | inl e ↦ inl (i / 128, omega (arith, (==_iff (i % 128) 127).0 e))
      | inr e ↦ inr (ground arith)
    ]
