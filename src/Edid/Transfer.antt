-- ===== src/Edid/Transfer.antt =====
-- An EDID on its way to the device and back (cgo/edid.c, cgo/ctrl.c).
use hardware_os.Base.{
  ℕ, zero, suc, ◌*◌, ◌/◌, ◌%◌, ◌≤◌, ◌<◌, ◌≡◌, refl, ap, ◌∙◌, ◌⊎◌, inl, inr, true, false, none, some,
  List, [], ◌∷◌, ◌++◌, arith, length, take, drop, All, length-take, Bool-cases, sum, ◌==◌,
}
use hardware_os.Base.Int.{ℤ, pos, negsuc}
use hardware_os.Base.Os.{Reply, done, failed}
use hardware_os.Hex.{hex_to_bytes, hex_of, bytes_to_hex}
use hardware_os.Hex.Accept.{hex_to_bytes_sound}
use hardware_os.Edid.Checksum.{fix_edid_checksum_sums, length-fix_edid_checksum}
use hardware_os.Hex.RoundTrip.{hex_to_bytes-hex_of}
use hardware_os.Edid.{
  fix_edid_checksum, EdidCall, open_subdev, s_edid, close_subdev, set_edid, jetkvm_video_set_edid,
  jetkvm_video_get_edid_hex, set_edid_open, bad_size, upload,
}

nonzero : (n : ℕ) → 0 < n → (n == 0) ≡ false
nonzero n h = ground arith

All-take : (n : ℕ) (xs : List ℕ) → All (λ b. b < 256) xs → All (λ b. b < 256) (take n xs)
All-take zero xs h = tt
All-take (suc n) [] h = tt
All-take (suc n) (x ∷ xs) h = (h.0, All-take n xs h.1)

-- `jetkvm_video_set_edid`, given the hexadecimal text of an EDID of one or two blocks and a device
-- that opens and accepts it, writes that EDID with its checksums corrected, in as many blocks as
-- it has, closes the device and returns 0.
pub jetkvm_video_set_edid-hex_of :
    (edid stack : List ℕ) (fd r : ℕ)
    → All (λ b. b < 256) edid
    → (length edid ≡ 128) ⊎ (length edid ≡ 256)
    → length stack ≡ 256
    → let sent = fix_edid_checksum (edid ++ drop (length edid) stack) (length edid) in
      jetkvm_video_set_edid stack (hex_of edid) (done fd) (done r) ≡ record {
        ret = pos 0;
        errno = none;
        buffer = sent;
        calls = open_subdev ∷ s_edid (length edid / 128) sent ∷ close_subdev ∷ [];
      }
unfolding jetkvm_video_set_edid
jetkvm_video_set_edid-hex_of edid stack fd r small (inl one) room =
    rw (hex_to_bytes-hex_of edid stack 256 small (omega arith) (omega arith) (omega arith), one)
      refl
jetkvm_video_set_edid-hex_of edid stack fd r small (inr two) room =
    rw (hex_to_bytes-hex_of edid stack 256 small (omega arith) (omega arith) (omega arith), two)
      refl

-- A call that may reach the device: a buffer is sent in one or two blocks, it holds them, and the
-- bytes of each sum to 0 modulo 256.
abbrev pub IsValidCall : EdidCall → Type 0
IsValidCall (s_edid blocks sent) =
    (1 ≤ blocks)
    × (blocks ≤ 2)
    × (blocks * 128 ≤ length sent)
    × ((b : ℕ) → b < blocks → sum (take 128 (drop (b * 128) sent)) % 256 ≡ 0)
IsValidCall _ = Unit

send_valid :
    (buf : List ℕ) (size : ℕ)
    → length buf ≡ 256
    → 128 ≤ size
    → size ≤ 256
    → IsValidCall (s_edid (size / 128) (fix_edid_checksum buf size))
send_valid buf size room lo hi = (
  omega arith,
  omega arith,
  omega (arith, length-fix_edid_checksum buf size),
  λ b h. fix_edid_checksum_sums buf size b (omega arith) h,
)

set_edid_open_valid :
    (buf : List ℕ) (size : ℕ) (opened answer : Reply)
    → length buf ≡ 256
    → 128 ≤ size
    → size ≤ 256
    → All IsValidCall (set_edid_open buf (fix_edid_checksum buf size) size opened answer).calls
unfolding set_edid_open
set_edid_open_valid buf size (failed e) answer room lo hi = (tt, tt)
set_edid_open_valid buf size (done fd) (failed e) room lo hi =
    (tt, (send_valid buf size room lo hi, (tt, tt)))
set_edid_open_valid buf size (done fd) (done r) room lo hi =
    (tt, (send_valid buf size room lo hi, (tt, tt)))

set_edid_valid :
    (buf : List ℕ) (size : ℕ) (opened answer : Reply)
    → length buf ≡ 256
    → All IsValidCall (set_edid (some buf) size opened answer).calls
unfolding set_edid
set_edid_valid buf size opened answer room = elim (Bool-cases (bad_size size)) [
  | inl bad ↦ rw bad tt
  | inr good ↦ rw good (
      set_edid_open_valid buf size opened answer room (ground (arith, good)) (ground (arith, good)))
]

upload_valid :
    (r : ℤ × List ℕ) (opened answer : Reply)
    → ((n : ℕ) (out : List ℕ) → r ≡ (pos n, out) → length out ≡ 256)
    → All IsValidCall (upload r opened answer).calls
unfolding upload
upload_valid (negsuc n, buf) opened answer room = tt
upload_valid (pos n, buf) opened answer room = set_edid_valid buf n opened answer (room n buf refl)

-- Whatever text `jetkvm_video_set_edid` is given, and whatever the device answers, an EDID reaches
-- the device only in one or two whole blocks, each with a valid checksum.
pub jetkvm_video_set_edid_valid :
    (edid_hex stack : List ℕ) (opened answer : Reply)
    → All (λ b. b < 256) stack
    → length stack ≡ 256
    → All IsValidCall (jetkvm_video_set_edid stack edid_hex opened answer).calls
unfolding jetkvm_video_set_edid
jetkvm_video_set_edid_valid edid_hex stack opened answer small room =
    upload_valid (hex_to_bytes edid_hex stack 256) opened answer
      λ n out e. (hex_to_bytes_sound edid_hex stack 256 n out small e).2 ∙ room

-- Of a device that delivers one or two blocks, and where `malloc` succeeds, `jetkvm_video_get_edid_hex`
-- returns a text that `hex_to_bytes` reads back, into a buffer of 256 bytes, as the bytes of these
-- blocks, with the rest of the buffer as it was.
pub jetkvm_video_get_edid_hex-hex_to_bytes :
    (stack filled buf : List ℕ) (fd blocks : ℕ)
    → All (λ b. b < 256) filled
    → length filled ≡ 256
    → 1 ≤ blocks
    → blocks ≤ 2
    → length buf ≡ 256
    → (text : List ℕ) × (jetkvm_video_get_edid_hex stack (done fd) (some (blocks, filled)) true
        ≡ some text)
      × (hex_to_bytes text buf 256
          ≡ (pos (blocks * 128), take (blocks * 128) filled ++ drop (blocks * 128) buf))
unfolding jetkvm_video_get_edid_hex bytes_to_hex
jetkvm_video_get_edid_hex-hex_to_bytes stack filled buf fd blocks small room lo hi fits =
    let size : length (take (blocks * 128) filled) ≡ blocks * 128 =
      omega (arith, length-take (blocks * 128) filled) in
    (
      hex_of (take (blocks * 128) filled),
      rw (nonzero (blocks * 128) (omega arith)) refl,
      hex_to_bytes-hex_of (take (blocks * 128) filled) buf 256
            (All-take (blocks * 128) filled small) (omega arith) (omega arith) (omega arith)
          ∙ ap (λ (n : ℕ). (pos n, take (blocks * 128) filled ++ drop n buf)) size,
    )
