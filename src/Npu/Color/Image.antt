-- ===== src/Npu/Color/Image.antt =====
-- The image that `nv12_to_rgb` writes (cgo/npu.c), pixel by pixel.
use hardware_os.Base.{
  ℕ, zero, suc, ◌+◌, ◌*◌, ◌≤◌, ◌<◌, ◌≡◌, refl, ◌∙◌, ◌⊎◌, inl, inr, List, arith, length, get_or, set,
  length-set, get_or-set_self, get_or-set_ne, lt_or_le, subst,
}
use native.Mathlib.Nat.{add-zero}
use hardware_os.Npu.Color.{Rgb, pixel_at, write_pixel, row_loop, image_loop, nv12_to_rgb}

-- The three bytes of a pixel, in the order in which they are stored.
abbrev pub channel : Rgb → ℕ → ℕ
channel p zero = p.red
channel p (suc zero) = p.green
channel p (suc (suc n)) = p.blue

write_pixel_other :
    (rgb : List ℕ) (at m : ℕ) (p : Rgb)
    → (m < at) ⊎ (at + 3 ≤ m)
    → get_or (write_pixel rgb at p) m 0 ≡ get_or rgb m 0
unfolding write_pixel
write_pixel_other rgb at m p out =
    get_or-set_ne (set (set rgb at p.red) (at + 1) p.green) (at + 2) m p.blue 0 (omega arith)
    ∙ get_or-set_ne (set rgb at p.red) (at + 1) m p.green 0 (omega arith)
    ∙ get_or-set_ne rgb at m p.red 0 (omega arith)

length-write_pixel : (rgb : List ℕ) (at : ℕ) (p : Rgb) → length (write_pixel rgb at p) ≡ length rgb
unfolding write_pixel
length-write_pixel rgb at p =
    length-set (set (set rgb at p.red) (at + 1) p.green) (at + 2) p.blue
    ∙ length-set (set rgb at p.red) (at + 1) p.green
    ∙ length-set rgb at p.red

write_pixel_at :
    (rgb : List ℕ) (at c : ℕ) (p : Rgb)
    → c < 3
    → at + 2 < length rgb
    → get_or (write_pixel rgb at p) (at + c) 0 ≡ channel p c
unfolding write_pixel
write_pixel_at rgb at zero p h room =
    get_or-set_ne (set (set rgb at p.red) (at + 1) p.green) (at + 2) (at + 0) p.blue 0 (omega arith)
    ∙ get_or-set_ne (set rgb at p.red) (at + 1) (at + 0) p.green 0 (omega arith)
    ∙ rw add-zero (get_or-set_self rgb at p.red 0 (omega arith))
write_pixel_at rgb at (suc zero) p h room =
    get_or-set_ne (set (set rgb at p.red) (at + 1) p.green) (at + 2) (at + 1) p.blue 0 (omega arith)
    ∙ get_or-set_self (set rgb at p.red) (at + 1) p.green 0 (omega (arith, length-set rgb at p.red))
write_pixel_at rgb at (suc (suc zero)) p h room =
    get_or-set_self (set (set rgb at p.red) (at + 1) p.green) (at + 2) p.blue 0
      (omega (arith, length-set rgb at p.red, length-set (set rgb at p.red) (at + 1) p.green))
write_pixel_at rgb at (suc (suc (suc c))) p h room = absurd (omega arith)

module _ (pixels : ℕ → ℕ → Rgb) (width : ℕ) where
  length-row_loop :
      (k j i : ℕ) (rgb : List ℕ) → length (row_loop pixels width j k i rgb) ≡ length rgb
  unfolding row_loop
  length-row_loop zero j i rgb = refl
  length-row_loop (suc k) j i rgb =
      let p = pixels j i in
      length-row_loop k j (i + 1) (write_pixel rgb ((j * width + i) * 3) p)
      ∙ length-write_pixel rgb ((j * width + i) * 3) p

  row_loop_below :
      (k j i m : ℕ) (rgb : List ℕ)
      → m < (j * width + i) * 3
      → get_or (row_loop pixels width j k i rgb) m 0 ≡ get_or rgb m 0
  unfolding row_loop
  row_loop_below zero j i m rgb h = refl
  row_loop_below (suc k) j i m rgb h =
      let p = pixels j i in
      row_loop_below k j (i + 1) m (write_pixel rgb ((j * width + i) * 3) p) (omega arith)
      ∙ write_pixel_other rgb ((j * width + i) * 3) m p (omega arith)

  row_loop_at :
      (k j i col c : ℕ) (rgb : List ℕ)
      → c < 3
      → i ≤ col
      → col < i + k
      → (j * width + (i + k)) * 3 ≤ length rgb
      → get_or (row_loop pixels width j k i rgb) ((j * width + col) * 3 + c) 0
        ≡ channel (pixels j col) c
  unfolding row_loop
  row_loop_at zero j i col c rgb hc lo hi room = absurd (omega arith)
  row_loop_at (suc k) j i col c rgb hc lo hi room =
      let p = pixels j i in
      let rgb' = write_pixel rgb ((j * width + i) * 3) p in
      let same = length-write_pixel rgb ((j * width + i) * 3) p in
      elim (lt_or_le i col) [
        | inl later ↦
            row_loop_at k j (i + 1) col c rgb' hc (omega arith) (omega arith) (omega arith)
        | inr here ↦
            row_loop_below k j (i + 1) ((j * width + col) * 3 + c) rgb' (omega arith)
            ∙ subst (λ (n : ℕ). get_or rgb' ((j * width + n) * 3 + c) 0 ≡ channel (pixels j n) c)
                (omega arith) (write_pixel_at rgb ((j * width + i) * 3) c p hc (omega arith))
      ]

  image_loop_below :
      (k j m : ℕ) (rgb : List ℕ)
      → m < j * width * 3
      → get_or (image_loop pixels width k j rgb) m 0 ≡ get_or rgb m 0
  unfolding image_loop
  image_loop_below zero j m rgb h = refl
  image_loop_below (suc k) j m rgb h =
      image_loop_below k (j + 1) m (row_loop pixels width j width 0 rgb) (omega arith)
      ∙ row_loop_below width j 0 m rgb (omega arith)

  pub image_loop_at :
      (k j row col c : ℕ) (rgb : List ℕ)
      → c < 3
      → col < width
      → j ≤ row
      → row < j + k
      → (j + k) * width * 3 ≤ length rgb
      → get_or (image_loop pixels width k j rgb) ((row * width + col) * 3 + c) 0
        ≡ channel (pixels row col) c
  unfolding image_loop
  image_loop_at zero j row col c rgb hc hcol lo hi room = absurd (omega arith)
  image_loop_at (suc k) j row col c rgb hc hcol lo hi room =
      let rgb' = row_loop pixels width j width 0 rgb in
      let same = length-row_loop width j 0 rgb in
      elim (lt_or_le j row) [
        | inl later ↦
            image_loop_at k (j + 1) row col c rgb' hc hcol (omega arith) (omega arith) (omega arith)
        | inr here ↦
            let e : j ≡ row = omega arith in
            subst
              (λ (n : ℕ).
                get_or (image_loop pixels width k (j + 1) rgb') ((n * width + col) * 3 + c) 0
                ≡ channel (pixels n col) c)
              e
              (image_loop_below k (j + 1) ((j * width + col) * 3 + c) rgb' (omega arith)
                ∙ row_loop_at width j 0 col c rgb hc (omega arith) (omega arith) (omega arith))
      ]

-- Into a buffer of width * height * 3 bytes, `nv12_to_rgb` writes for every row and column the three
-- channels of that pixel, at its place.
pub nv12_to_rgb_at :
    (nv12 rgb : List ℕ) (width height row col c : ℕ)
    → row < height
    → col < width
    → c < 3
    → width * height * 3 ≤ length rgb
    → get_or (nv12_to_rgb nv12 width height rgb) ((row * width + col) * 3 + c) 0
      ≡ channel (pixel_at nv12 width height row col) c
unfolding nv12_to_rgb
nv12_to_rgb_at nv12 rgb width height row col c hrow hcol hc room =
    image_loop_at (pixel_at nv12 width height) width height 0 row col c rgb hc hcol (omega arith)
      (omega arith) (omega arith)
