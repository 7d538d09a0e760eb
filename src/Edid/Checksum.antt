-- ===== src/Edid/Checksum.antt =====
-- The checksums that `fix_edid_checksum` (cgo/edid.c) writes.
pub mod Unique
use Prim.Native.Nat.add
use native.Mathlib.Numerals.{add-one}
use hardware_os.Base.{
  ℕ, zero, suc, ◌+◌, ◌-◌, ◌*◌, ◌/◌, ◌%◌, ◌≤◌, ◌<◌, ◌≡◌, ◌≢◌, refl, sym, ap, ◌∙◌, ◌⊎◌, inl, inr,
  List, [], ◌∷◌, arith, length, get_or, set, take, drop, sum, length-set, get_or-set_self,
  get_or-set_ne, lt_or_le, subst,
}
use hardware_os.Edid.{sum_loop, fix_loop, fix_edid_checksum}

-- The loop reads only the bytes in its range.
sum_loop-set :
    (k at acc i v : ℕ) (edid : List ℕ)
    → (i < at) ⊎ (at + k ≤ i)
    → sum_loop (set edid i v) k at acc ≡ sum_loop edid k at acc
unfolding sum_loop
sum_loop-set zero at acc i v edid out = refl
sum_loop-set (suc k) at acc i v edid out =
    rw (get_or-set_ne edid i at v 0 (omega arith))
      (sum_loop-set k (at + 1) ((acc + get_or edid at 0) % 256) i v edid (omega arith))

-- One more round at the end.
pub sum_loop-suc :
    (k at acc : ℕ) (edid : List ℕ)
    → sum_loop edid (suc k) at acc ≡ (sum_loop edid k at acc + get_or edid (at + k) 0) % 256
unfolding sum_loop
sum_loop-suc zero at acc edid = ap (λ (i : ℕ). (acc + get_or edid i 0) % 256) (omega arith)
sum_loop-suc (suc k) at acc edid =
    sum_loop-suc k (at + 1) ((acc + get_or edid at 0) % 256) edid
    ∙ ap
        (λ (i : ℕ).
          (sum_loop edid k (at + 1) ((acc + get_or edid at 0) % 256) + get_or edid i 0) % 256)
        (omega arith)

pub sum_loop-lt : (k at acc : ℕ) (edid : List ℕ) → acc < 256 → sum_loop edid k at acc < 256
unfolding sum_loop
sum_loop-lt zero at acc edid h = h
sum_loop-lt (suc k) at acc edid h =
    sum_loop-lt k (at + 1) ((acc + get_or edid at 0) % 256) edid (omega arith)

-- After one round of the outer loop its block sums to 0.
set_checksum :
    (edid : List ℕ) (block : ℕ)
    → block * 128 + 127 < length edid
    → sum_loop
        (set edid (block * 128 + 127) ((256 - sum_loop edid 127 (block * 128) 0) % 256))
        128
        (block * 128)
        0
      ≡ 0
set_checksum edid block room =
    let c : ℕ = (256 - sum_loop edid 127 (block * 128) 0) % 256 in
    sum_loop-suc 127 (block * 128) 0 (set edid (block * 128 + 127) c)
    ∙ rw
        (
          sum_loop-set 127 (block * 128) 0 (block * 128 + 127) c edid (omega arith),
          get_or-set_self edid (block * 128 + 127) c 0 room,
        )
        (omega (arith, sum_loop-lt 127 (block * 128) 0 edid (omega arith)))

-- Later rounds leave the blocks below them alone.
fix_loop_below :
    (k block b : ℕ) (edid : List ℕ)
    → b < block
    → sum_loop (fix_loop edid k block) 128 (b * 128) 0 ≡ sum_loop edid 128 (b * 128) 0
unfolding fix_loop
fix_loop_below zero block b edid h = refl
fix_loop_below (suc k) block b edid h =
    let c : ℕ = (256 - sum_loop edid 127 (block * 128) 0) % 256 in
    fix_loop_below k (block + 1) b (set edid (block * 128 + 127) c) (omega arith)
    ∙ sum_loop-set 128 (b * 128) 0 (block * 128 + 127) c edid (omega arith)

fix_loop_sums :
    (k block b : ℕ) (edid : List ℕ)
    → (block + k) * 128 ≤ length edid
    → block ≤ b
    → b < block + k
    → sum_loop (fix_loop edid k block) 128 (b * 128) 0 ≡ 0
unfolding fix_loop
fix_loop_sums zero block b edid room lo hi = absurd (omega arith)
fix_loop_sums (suc k) block b edid room lo hi =
    let c : ℕ = (256 - sum_loop edid 127 (block * 128) 0) % 256 in
    elim (lt_or_le block b) [
      | inl later ↦
          fix_loop_sums k (block + 1) b (set edid (block * 128 + 127) c)
            (omega (arith, length-set edid (block * 128 + 127) c)) (omega arith) (omega arith)
      | inr here ↦
          let same : block ≡ b = omega arith in
          fix_loop_below k (block + 1) b (set edid (block * 128 + 127) c) (omega arith)
          ∙ subst (λ (i : ℕ). sum_loop (set edid (block * 128 + 127) c) 128 (i * 128) 0 ≡ 0) same
              (set_checksum edid block (omega arith))
    ]

sum-drop :
    (k at : ℕ) (xs : List ℕ)
    → sum (take (suc k) (drop at xs)) ≡ get_or xs at 0 + sum (take k (drop (suc at) xs))
sum-drop zero zero [] = refl
sum-drop (suc k) zero [] = refl
sum-drop zero (suc at) [] = refl
sum-drop (suc k) (suc at) [] = refl
sum-drop k zero (x ∷ xs) = refl
sum-drop k (suc at) (x ∷ xs) = sum-drop k at xs

sum_slice :
    (k at : ℕ) (xs : List ℕ)
    → sum (take (suc k) (drop at xs)) ≡ get_or xs at 0 + sum (take k (drop (at + 1) xs))
sum_slice k at xs = rw add-one (sum-drop k at xs)

pub sum_loop_slice :
    (k at acc : ℕ) (edid : List ℕ)
    → acc < 256
    → sum_loop edid k at acc ≡ (acc + sum (take k (drop at edid))) % 256
unfolding sum_loop
sum_loop_slice zero at acc edid h = omega arith
sum_loop_slice (suc k) at acc edid h =
    sum_loop_slice k (at + 1) ((acc + get_or edid at 0) % 256) edid (omega arith)
    ∙ omega (arith, sum_slice k at edid)

-- After `fix_edid_checksum` the 128 bytes of every block sum to 0 modulo 256, as an EDID wants.
pub fix_edid_checksum_sums :
    (edid : List ℕ) (size b : ℕ)
    → size ≤ length edid
    → b < size / 128
    → sum (take 128 (drop (b * 128) (fix_edid_checksum edid size))) % 256 ≡ 0
unfolding fix_edid_checksum
fix_edid_checksum_sums edid size b room h =
    sym (
      sum_loop_slice 128 (b * 128) 0 (fix_edid_checksum edid size) (omega arith)
      ∙ ap (λ (t : ℕ). t % 256)
          (add.zero (sum (take 128 (drop (b * 128) (fix_edid_checksum edid size))))))
    ∙ fix_loop_sums (size / 128) 0 b edid (omega arith) (omega arith) (omega arith)

fix_loop_other :
    (k block i : ℕ) (edid : List ℕ)
    → i % 128 ≢ 127
    → get_or (fix_loop edid k block) i 0 ≡ get_or edid i 0
unfolding fix_loop
fix_loop_other zero block i edid h = refl
fix_loop_other (suc k) block i edid h =
    let c : ℕ = (256 - sum_loop edid 127 (block * 128) 0) % 256 in
    fix_loop_other k (block + 1) i (set edid (block * 128 + 127) c) h
    ∙ get_or-set_ne edid (block * 128 + 127) i c 0 (omega arith)

-- `fix_edid_checksum` changes no byte but the last one of a block, and keeps the length.
pub fix_edid_checksum_other :
    (edid : List ℕ) (size i : ℕ)
    → i % 128 ≢ 127
    → get_or (fix_edid_checksum edid size) i 0 ≡ get_or edid i 0
unfolding fix_edid_checksum
fix_edid_checksum_other edid size i h = fix_loop_other (size / 128) 0 i edid h

length-fix_loop : (k block : ℕ) (edid : List ℕ) → length (fix_loop edid k block) ≡ length edid
unfolding fix_loop
length-fix_loop zero block edid = refl
length-fix_loop (suc k) block edid =
    let c : ℕ = (256 - sum_loop edid 127 (block * 128) 0) % 256 in
    length-fix_loop k (block + 1) (set edid (block * 128 + 127) c)
    ∙ length-set edid (block * 128 + 127) c

pub length-fix_edid_checksum :
    (edid : List ℕ) (size : ℕ) → length (fix_edid_checksum edid size) ≡ length edid
unfolding fix_edid_checksum
length-fix_edid_checksum edid size = length-fix_loop (size / 128) 0 edid
