-- ===== src/Npu/Color.antt =====
-- The conversion of an NV12 image to RGB: `nv12_to_rgb` of cgo/npu.c. A chroma sample less 128 and
-- the products are `int`s; the shift rounds down.
pub mod Image
pub mod Pixel
pub mod Resize
use hardware_os.Base.{
  ℕ, zero, suc, ◌+◌, ◌-◌, ◌*◌, ◌/◌, Bool, true, false, List, ltb, if◌then◌else◌, get_or, set,
}
use hardware_os.Base.Int.{ℤ, pos, negsuc, ◌+ℤ◌, ◌-ℤ◌, ◌*ℤ◌, shr8}

unfoldable pub clamp : ℤ → ℕ
clamp (negsuc n) = 0
clamp (pos n) = if ltb 255 n then 255 else n

-- Red, green and blue of a pixel.
pub record Rgb : Type 0 where
  pub red : ℕ
  pub green : ℕ
  pub blue : ℕ

unfoldable pub pixel : ℕ → ℕ → ℕ → Rgb
pixel y cb cr =
    let u = pos cb -ℤ pos 128 in
    let v = pos cr -ℤ pos 128 in
    record {
      red = clamp (pos y +ℤ shr8 (v *ℤ pos 359));
      green = clamp (pos y -ℤ shr8 (u *ℤ pos 88 +ℤ v *ℤ pos 183));
      blue = clamp (pos y +ℤ shr8 (u *ℤ pos 454));
    }

-- The index of the chroma pair of a pixel, behind the luma plane.
abbrev pub uv_index : ℕ → ℕ → ℕ → ℕ
uv_index width j i = j / 2 * width + i / 2 * 2

-- The pixel in row j and column i.
unfoldable pub pixel_at : List ℕ → ℕ → ℕ → ℕ → ℕ → Rgb
pixel_at nv12 width height j i =
    let uv = width * height + uv_index width j i in
    pixel (get_or nv12 (j * width + i) 0) (get_or nv12 uv 0) (get_or nv12 (uv + 1) 0)

unfoldable pub write_pixel : List ℕ → ℕ → Rgb → List ℕ
write_pixel rgb at p = set (set (set rgb at p.red) (at + 1) p.green) (at + 2) p.blue

-- The two loops over the pixels of an image, given what is written at each row and column.
module _ (pixels : ℕ → ℕ → Rgb) (width : ℕ) where
  pub row_loop : ℕ → ℕ → ℕ → List ℕ → List ℕ
  row_loop j zero i rgb = rgb
  row_loop j (suc k) i rgb =
      row_loop j k (i + 1) (write_pixel rgb ((j * width + i) * 3) (pixels j i))

  pub image_loop : ℕ → ℕ → List ℕ → List ℕ
  image_loop zero j rgb = rgb
  image_loop (suc k) j rgb = image_loop k (j + 1) (row_loop j width 0 rgb)

unfoldable pub nv12_to_rgb : List ℕ → ℕ → ℕ → List ℕ → List ℕ
unfolding image_loop row_loop
nv12_to_rgb nv12 width height rgb = image_loop (pixel_at nv12 width height) width height 0 rgb
