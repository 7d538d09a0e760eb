-- ===== src/Video.antt =====
-- The capture of the HDMI input, targets/rv1106/native/cgo/video.c and video.h: here the parameters
-- of the encoder, its start and its stop. Video/Session has the streaming thread and Video/Control
-- the operations that start, stop and restart it.
pub mod Bitrate
pub mod Control
pub mod Detect
pub mod Power
pub mod Reader
pub mod Session
pub mod Status
use hardware_os.Base.{ℕ, zero, suc, ◌+◌, ◌*◌, ◌/◌, ◌%◌, ◌^◌, Bool, true, false, if◌then◌else◌}
use hardware_os.Base.Int.{ℤ, pos, negsuc, ◌+ℤ◌, ◌*ℤ◌, ltb_ℤ, is_neg}
use hardware_os.Base.Float.{FloatOps}

-- A non-zero result of the vendor's library.
abbrev pub is_error : ℤ → Bool
is_error (pos zero) = false
is_error (pos (suc n)) = true
is_error (negsuc n) = true

-- RK_ALIGN_2 on an RK_U32.
unfoldable pub align_2 : ℕ → ℕ
align_2 x = (x + 1) % 2 ^ 32 / 2 * 2

-- The fields of VENC_CHN_ATTR_S that depend on the arguments, and the counts.
pub record VencAttr : Type 0 where
  pub bitrate : ℕ
  pub max_bitrate : ℕ
  pub gop : ℕ
  pub pic_width : ℕ
  pub pic_height : ℕ
  pub vir_width : ℕ
  pub vir_height : ℕ
  pub stream_buf_count : ℕ
  pub buf_size : ℕ

unfoldable pub populate_venc_attr : ℕ → ℕ → ℕ → ℕ → VencAttr
populate_venc_attr bitrate max_bitrate width height = record {
  bitrate = bitrate;
  max_bitrate = max_bitrate;
  gop = 60;
  pic_width = width;
  pic_height = height;
  vir_width = align_2 width;
  vir_height = align_2 height;
  stream_buf_count = 3;
  buf_size = width * height * 3 % 2 ^ 32 / 2;
}

-- Never below `min_bitrate`.
unfoldable pub with_min : ℤ → ℤ
with_min bitrate = if ltb_ℤ bitrate (pos 100) then pos 100 else bitrate

module _ {F : Type 0} (fl : FloatOps F) where
  open fl use {literal, of_nat, plus, minus, times, divide, truncate}

  abbrev of_ℤ : ℤ → F
  of_ℤ (pos n) = of_nat n
  of_ℤ (negsuc n) = minus (literal 0 1) (of_nat (suc n))

  -- `float` and `double` are one type here. The result is the whole number that is returned.
  unfoldable pub calculate_bitrate : F → ℕ → ℕ → ℤ
  calculate_bitrate bitrate_factor width height =
      let scale_factor =
        divide (times (of_nat width) (of_nat height)) (times (literal 1920 1) (literal 1080 1)) in
      let base_bitrate = pos 512 +ℤ truncate (times (of_nat 1488) bitrate_factor) in
      with_min (truncate (times (of_ℤ base_bitrate) scale_factor))

-- The encoder: its channel, `venc_running`, and whether `venc_read_thread` is not NULL.
pub record Venc : Type 0 where
  pub channel : Bool
  pub venc_running : Bool
  pub venc_read_thread : Bool

-- What the vendor's library and `pthread_create` answer.
pub record VencOs : Type 0 where
  pub create : ℤ
  pub start_recv : ℤ
  pub thread : ℕ
  pub stop_recv : ℤ
  pub destroy : ℤ

-- The channel is created with `populate_venc_attr` of the arguments.
unfoldable pub venc_start : VencOs → Venc → Venc × ℤ
venc_start os v =
    if is_neg os.create
    then (v, os.create)
    else (if is_neg os.start_recv then (record v { channel = true }, os.start_recv) else (
      record { channel = true; venc_running = true; venc_read_thread = true },
      (if is_error (pos os.thread) then negsuc 0 else pos 0),
    ))

unfoldable pub venc_stop : VencOs → Venc → Venc × ℤ
venc_stop os v =
    if is_error os.stop_recv then (record v { venc_running = false }, os.stop_recv) else (
      record {
        channel = if is_error os.destroy then v.channel else false;
        venc_running = false;
        venc_read_thread = false;
      },
      os.destroy,
    )
