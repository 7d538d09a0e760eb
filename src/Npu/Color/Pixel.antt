-- ===== src/Npu/Color/Pixel.antt =====
-- The colour of one pixel (cgo/npu.c).
use hardware_os.Base.{ℕ, ◌+◌, ◌*◌, ◌/◌, ◌≤◌, ◌<◌, ◌≡◌, arith}
use hardware_os.Base.Int.{ℤ}
use hardware_os.Npu.Color.{clamp, pixel, uv_index}

clamp_le : (x : ℤ) → clamp x ≤ 255
unfolding clamp
clamp_le x = ground arith

-- Every channel of every pixel is a byte.
pixel_le :
    (y cb cr : ℕ)
    → ((pixel y cb cr).red ≤ 255) × ((pixel y cb cr).green ≤ 255) × ((pixel y cb cr).blue ≤ 255)
unfolding pixel
pixel_le y cb cr = (search clamp_le, search clamp_le, search clamp_le)

-- With both chroma samples in the middle the pixel is grey, as bright as its luma sample.
pixel_grey : (y : ℕ) → y ≤ 255 → pixel y 128 128 ≡ record { red = y; green = y; blue = y }
unfolding pixel clamp
pixel_grey y h = ground arith

in_range :
    (row col width height : ℕ) → row < height → col < width → row * width + col < height * width
in_range row col width height p q = grind arith

-- In an image of even width and height every index that the conversion reads lies inside an NV12
-- buffer of width * height * 3 / 2 bytes.
nv12_in_bounds :
    (width height j i : ℕ)
    → j < height * 2
    → i < width * 2
    → (j * (width * 2) + i < width * 2 * (height * 2))
      × (width * 2 * (height * 2) + uv_index (width * 2) j i + 1 < width * 2 * (height * 2) * 3 / 2)
nv12_in_bounds width height j i hj hi = (
  omega (arith, in_range j i (width * 2) (height * 2) hj hi),
  omega (arith, in_range (j / 2) (i / 2) width height (omega arith) (omega arith)),
)
