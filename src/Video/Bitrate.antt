-- ===== src/Video/Bitrate.antt =====
-- The bit rate of the encoder and the dimensions it works with (cgo/video.c).
use hardware_os.Base.{ℕ, suc, ◌+◌, ◌%◌, ◌^◌, ◌<◌, ◌≡◌, arith}
use hardware_os.Base.Int.{ℤ, pos, negsuc, ◌≤ℤ◌}
use hardware_os.Base.Float.{FloatOps}
use hardware_os.Video.{calculate_bitrate, with_min, align_2}

with_min_le : (b : ℤ) → pos 100 ≤ℤ with_min b
unfolding with_min
with_min_le (pos n) = ground arith
with_min_le (negsuc n) = ground arith

-- The bit rate is at least 100, whatever the factor, the dimensions and the arithmetic on floats are.
calculate_bitrate_min :
    {F : Type 0} (fl : FloatOps F) (factor : F) (width height : ℕ)
    → pos 100 ≤ℤ calculate_bitrate fl factor width height
unfolding calculate_bitrate
calculate_bitrate_min fl factor width height = with_min_le _

-- The dimensions of the encoder's frames are the picture's, or one more where those are odd, for
-- pictures of less than 2^32 - 1 pixels a side.
align_2_lem : (x : ℕ) → suc x < 2 ^ 32 → align_2 x ≡ x + x % 2
unfolding align_2
align_2_lem x fits = omega arith
