-- ===== src/Npu/Color/Resize.antt =====
-- The bilinear scaling of an image: `resize_rgb` of cgo/npu.c. The floating-point numbers are an
-- argument. A truncated co-ordinate is never negative, and a value that is written is never out of
-- range: what these conversions give there is not met.
use hardware_os.Base.{
  ℕ, zero, suc, ◌+◌, ◌*◌, ◌%◌, ◌≤◌, ◌<◌, ◌≡◌, refl, ◌∙◌, List, arith, ltb, if◌then◌else◌, length,
  get_or,
}
use hardware_os.Base.Int.{ℤ, pos, negsuc}
use native.Mathlib.Nat.{mul-le-mul_right}
use hardware_os.Base.Float.{FloatOps}
use hardware_os.Npu.Color.{Rgb, row_loop, image_loop}
use hardware_os.Npu.Color.Image.{channel, image_loop_at}

-- `(int)` of a co-ordinate, and `(uint8_t)` of a value.
abbrev to_index : ℤ → ℕ
to_index (pos n) = n
to_index (negsuc n) = 0

abbrev to_byte : ℤ → ℕ
to_byte (pos n) = n % 256
to_byte (negsuc n) = 0

-- x1 or y1: the neighbour, if there is one.
abbrev pub neighbour : ℕ → ℕ → ℕ
neighbour n size = if ltb (n + 1) size then n + 1 else n

-- The index of a channel of a pixel.
abbrev pub rgb_index : ℕ → ℕ → ℕ → ℕ → ℕ
rgb_index src_w y x c = (y * src_w + x) * 3 + c

neighbour_lt : (n size : ℕ) → n < size → neighbour n size < size
neighbour_lt n size h = ground arith

index_lt : (y x c w h : ℕ) → x < w → y < h → c < 3 → rgb_index w y x c < w * h * 3
index_lt y x c w h hx hy hc = let rows : suc y * w ≤ h * w = mul-le-mul_right w hy in omega arith

module _ {F : Type 0} (fl : FloatOps F) where
  -- src_x or src_y
  abbrev pub scaled : ℕ → ℕ → ℕ → F
  scaled n src_size dst_size =
      fl.times (fl.of_nat n) (fl.divide (fl.of_nat src_size) (fl.of_nat dst_size))

  -- x0 or y0
  unfoldable pub source_index : ℕ → ℕ → ℕ → ℕ
  source_index n src_size dst_size = to_index (fl.truncate (scaled n src_size dst_size))

  -- The weighted sum of the four samples.
  abbrev blend : F → F → F → F → F → F → F
  blend p00 p01 p10 p11 x_frac y_frac =
      let one = fl.of_nat 1 in
      fl.plus
        (fl.plus
          (fl.plus (fl.times (fl.times p00 (fl.minus one x_frac)) (fl.minus one y_frac))
            (fl.times (fl.times p01 x_frac) (fl.minus one y_frac)))
          (fl.times (fl.times p10 (fl.minus one x_frac)) y_frac))
        (fl.times (fl.times p11 x_frac) y_frac)

  module _ (src : List ℕ) (src_w src_h dst_w dst_h : ℕ) where
    -- Channel c of the pixel in row j and column i.
    unfoldable pub resized_channel : ℕ → ℕ → ℕ → ℕ
    unfolding source_index
    resized_channel j i c =
        let x0 = source_index i src_w dst_w in
        let y0 = source_index j src_h dst_h in
        let x1 = neighbour x0 src_w in
        let y1 = neighbour y0 src_h in
        let val =
          blend (fl.of_nat (get_or src (rgb_index src_w y0 x0 c) 0))
            (fl.of_nat (get_or src (rgb_index src_w y0 x1 c) 0))
            (fl.of_nat (get_or src (rgb_index src_w y1 x0 c) 0))
            (fl.of_nat (get_or src (rgb_index src_w y1 x1 c) 0))
            (fl.minus (scaled i src_w dst_w) (fl.of_nat x0))
            (fl.minus (scaled j src_h dst_h) (fl.of_nat y0)) in
        to_byte (fl.truncate (fl.plus val (fl.literal 1 2)))

    abbrev pub resized_pixel : ℕ → ℕ → Rgb
    resized_pixel j i = record {
      red = resized_channel j i 0;
      green = resized_channel j i 1;
      blue = resized_channel j i 2;
    }

    -- `dst` before and after.
    unfoldable pub resize_rgb : List ℕ → List ℕ
    unfolding image_loop row_loop resized_channel
    resize_rgb dst = image_loop resized_pixel dst_w dst_h 0 dst

    -- Into a buffer of dst_w * dst_h * 3 bytes, `resize_rgb` writes for every row, column and channel the
    -- blend of the four samples around the pixel's place in the source.
    resize_rgb_at :
        (dst : List ℕ) (row col c : ℕ)
        → row < dst_h
        → col < dst_w
        → c < 3
        → dst_w * dst_h * 3 ≤ length dst
        → get_or (resize_rgb dst) ((row * dst_w + col) * 3 + c) 0 ≡ resized_channel row col c
    unfolding resize_rgb
    resize_rgb_at dst row col c hrow hcol hc room =
        image_loop_at resized_pixel dst_w dst_h 0 row col c dst hc hcol (omega arith) (omega arith)
          (omega arith)
        ∙ picked c hc
      where
        picked : (c : ℕ) → c < 3 → channel (resized_pixel row col) c ≡ resized_channel row col c
        picked zero h = refl
        picked (suc zero) h = refl
        picked (suc (suc zero)) h = refl
        picked (suc (suc (suc c))) h = absurd (omega arith)

    -- If the truncated co-ordinates of a pixel lie in the source, the four samples that are read for each
    -- of its channels do, in a source of src_w * src_h * 3 bytes.
    resize_rgb_in_bounds :
        (j i c : ℕ)
        → source_index i src_w dst_w < src_w
        → source_index j src_h dst_h < src_h
        → c < 3
        → length src ≡ src_w * src_h * 3
        → let x0 = source_index i src_w dst_w in
          let y0 = source_index j src_h dst_h in
          (rgb_index src_w y0 x0 c < length src)
          × (rgb_index src_w y0 (neighbour x0 src_w) c < length src)
          × (rgb_index src_w (neighbour y0 src_h) x0 c < length src)
          × (rgb_index src_w (neighbour y0 src_h) (neighbour x0 src_w) c < length src)
    resize_rgb_in_bounds j i c hx hy hc size =
        let right = neighbour_lt (source_index i src_w dst_w) src_w hx in
        let below = neighbour_lt (source_index j src_h dst_h) src_h hy in
        rw size (
          index_lt _ _ c src_w src_h hx hy hc,
          index_lt _ _ c src_w src_h right hy hc,
          index_lt _ _ c src_w src_h hx below hc,
          index_lt _ _ c src_w src_h right below hc,
        )
