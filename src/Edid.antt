-- ===== src/Edid.antt =====
-- The EDID of the HDMI receiver: targets/rv1106/native/cgo/edid.c, and the two calls of cgo/ctrl.c
-- that carry it as hexadecimal text. A buffer is the list of its bytes. The replies of `open` and
-- `ioctl` are arguments; `errno` is what the code itself assigns.
pub mod Checksum
pub mod LogStatus
pub mod Transfer
use hardware_os.Base.{
  ℕ, zero, suc, ◌+◌, ◌-◌, ◌*◌, ◌/◌, ◌%◌, Bool, true, false, ◌&&◌, ◌||◌, not, Option, none, some,
  List, [], ◌∷◌, ◌==◌, if◌then◌else◌, get_or, set, is_some,
}
use hardware_os.Base.Int.{ℤ, pos, negsuc}
use hardware_os.Base.Os.{Reply, done, failed, einval}
use hardware_os.Hex.{hex_to_bytes, bytes_to_hex}

-- The inner loop of `fix_edid_checksum`: `sum` is a `uint8_t`.
pub sum_loop : List ℕ → ℕ → ℕ → ℕ → ℕ
sum_loop edid zero at acc = acc
sum_loop edid (suc k) at acc = sum_loop edid k (at + 1) ((acc + get_or edid at 0) % 256)

-- The outer loop, over the blocks that are left.
pub fix_loop : List ℕ → ℕ → ℕ → List ℕ
fix_loop edid zero block = edid
fix_loop edid (suc k) block =
    fix_loop (set edid (block * 128 + 127) ((256 - sum_loop edid 127 (block * 128) 0) % 256)) k
      (block + 1)

unfoldable pub fix_edid_checksum : List ℕ → ℕ → List ℕ
unfolding fix_loop
fix_edid_checksum edid size = fix_loop edid (size / 128) 0

-- What reaches the device, in order. A request carries the field `blocks`.
pub data EdidCall : Type 0 where
  open_subdev : EdidCall
  g_edid : ℕ → EdidCall
  s_edid : ℕ → List ℕ → EdidCall
  close_subdev : EdidCall

-- The outcome of a call: the returned `int`, the assigned `errno`, the buffer, the calls made.
pub record EdidOutcome : Type 0 where
  pub ret : ℤ
  pub errno : Option ℕ
  pub buffer : List ℕ
  pub calls : List EdidCall

abbrev pub refused : List ℕ → EdidOutcome
refused buf = record { ret = negsuc 0; errno = some einval; buffer = buf; calls = [] }

abbrev pub failed_after : List ℕ → List EdidCall → EdidOutcome
failed_after buf calls = record { ret = negsuc 0; errno = none; buffer = buf; calls = calls }

abbrev pub bad_size : ℕ → Bool
bad_size size = not (size == 128) && not (size == 256)

-- `got` is the answer of VIDIOC_G_EDID: the number of blocks and the buffer that it filled.
get_edid_open : List ℕ → Reply → Option (ℕ × List ℕ) → EdidOutcome
get_edid_open buf (failed e) got = failed_after buf (open_subdev ∷ [])
get_edid_open buf (done fd) none = failed_after buf (open_subdev ∷ g_edid 2 ∷ close_subdev ∷ [])
get_edid_open buf (done fd) (some (blocks, filled)) = record {
  ret = pos (blocks * 128);
  errno = none;
  buffer = filled;
  calls = open_subdev ∷ g_edid 2 ∷ close_subdev ∷ [];
}

unfoldable pub get_edid : Option (List ℕ) → ℕ → Reply → Option (ℕ × List ℕ) → EdidOutcome
unfolding get_edid_open
get_edid none max_size opened got = refused []
get_edid (some buf) max_size opened got =
    if bad_size max_size then refused buf else get_edid_open buf opened got

-- From `open` on: `fixed` is the buffer after `fix_edid_checksum`.
set_edid_open : List ℕ → List ℕ → ℕ → Reply → Reply → EdidOutcome
set_edid_open buf fixed size (failed e) answer = failed_after buf (open_subdev ∷ [])
set_edid_open buf fixed size (done fd) (failed e) =
    failed_after fixed (open_subdev ∷ s_edid (size / 128) fixed ∷ close_subdev ∷ [])
set_edid_open buf fixed size (done fd) (done r) = record {
  ret = pos 0;
  errno = none;
  buffer = fixed;
  calls = open_subdev ∷ s_edid (size / 128) fixed ∷ close_subdev ∷ [];
}

unfoldable pub set_edid : Option (List ℕ) → ℕ → Reply → Reply → EdidOutcome
unfolding set_edid_open
set_edid none size opened answer = refused []
set_edid (some buf) size opened answer =
    if bad_size size
    then refused buf
    else set_edid_open buf (fix_edid_checksum buf size) size opened answer

upload : ℤ × List ℕ → Reply → Reply → EdidOutcome
unfolding set_edid
upload (negsuc n, buf) opened answer = failed_after buf []
upload (pos n, buf) opened answer = set_edid (some buf) n opened answer

-- `stack` is what the uninitialised `uint8_t edid[256]` holds.
unfoldable pub jetkvm_video_set_edid : List ℕ → List ℕ → Reply → Reply → EdidOutcome
unfolding upload
jetkvm_video_set_edid stack edid_hex opened answer =
    upload (hex_to_bytes edid_hex stack 256) opened answer

download : Bool → EdidOutcome → Option (List ℕ)
download allocated r = elim r.ret [
  | negsuc n ↦ none
  | pos n ↦ bytes_to_hex allocated (some r.buffer) n
]

unfoldable pub jetkvm_video_get_edid_hex :
    List ℕ → Reply → Option (ℕ × List ℕ) → Bool → Option (List ℕ)
unfolding get_edid download
jetkvm_video_get_edid_hex stack opened got allocated =
    download allocated (get_edid (some stack) 256 opened got)
