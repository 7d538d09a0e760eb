-- ===== src/Isp.antt =====
-- The image signal processor: targets/rv1106/native/cgo/isp.c and isp.h. The lock is held through
-- each operation but `isp_shutdown`, so an operation is one step of the state. The vendor's library
-- is stubbed in the source, and so it is here.
pub mod Lifecycle
pub mod Angles
pub mod Info
use hardware_os.Base.{
  ℕ, zero, suc, ◌+◌, Bool, true, false, not, Option, none, some, List, [], ◌∷◌, ◌++◌, ◌==◌,
  if◌then◌else◌, drop, length,
}
use hardware_os.Base.Int.{ℤ, pos, negsuc, neg, is_neg}
use hardware_os.Base.Os.{einval}
use hardware_os.Base.CString.{c_string, strncpy, strcpy}
use hardware_os.Base.Float.{FloatOps}

pub record IspConfig : Type 0 where
  pub ldch_enabled : Bool
  pub ldch_level : ℕ  -- uint8_t
  pub ldch_mesh_path : List ℕ  -- char[256]
  pub hdr_enabled : Bool
  pub noise_reduction : Bool
  pub auto_exposure : Bool
  pub auto_white_balance : Bool

pub record IspStatus (F : Type 0) : Type 0 where
  pub initialized : Bool
  pub running : Bool
  pub ldch_enabled : Bool
  pub ldch_level : ℕ  -- uint8_t
  pub current_exposure_time_ms : F
  pub current_gain : F
  pub current_color_temp_k : ℤ

-- `g_isp`, without the lock and the pointer `aiq_ctx`, which nothing writes.
pub record Isp (F : Type 0) : Type 0 where
  pub config : IspConfig
  pub status : IspStatus F
  pub sensor_name : List ℕ  -- char[64]
  pub aiq_available : Bool

-- The stubs of the vendor's library: each returns 0.
abbrev pub rkaiq_init_stub : ℤ
rkaiq_init_stub = pos 0

abbrev pub rkaiq_start_stub : ℤ
rkaiq_start_stub = pos 0

abbrev pub rkaiq_stop_stub : ℤ
rkaiq_stop_stub = pos 0

abbrev pub rkaiq_set_ldch_enable_stub : Bool → ℤ
rkaiq_set_ldch_enable_stub enable = pos 0

abbrev pub rkaiq_set_ldch_level_stub : ℕ → ℤ
rkaiq_set_ldch_level_stub level = pos 0

abbrev pub rkaiq_set_ldch_mesh_stub : List ℕ → ℤ
rkaiq_set_ldch_mesh_stub mesh_path = pos 0

abbrev pub ldch_level_full : ℕ
ldch_level_full = 255

-- "/userdata/ldch_mesh.bin"
abbrev pub ldch_mesh_path_default : List ℕ
ldch_mesh_path_default =
    b'/' ∷ b'u' ∷ b's' ∷ b'e' ∷ b'r' ∷ b'd' ∷ b'a' ∷ b't' ∷ b'a' ∷ b'/' ∷ b'l' ∷ b'd' ∷ b'c' ∷ b'h'
    ∷ b'_' ∷ b'm' ∷ b'e' ∷ b's' ∷ b'h' ∷ b'.' ∷ b'b' ∷ b'i' ∷ b'n' ∷ []

-- "sc3336"
abbrev pub sensor_default : List ℕ
sensor_default = b's' ∷ b'c' ∷ b'3' ∷ b'3' ∷ b'3' ∷ b'6' ∷ []

abbrev pub sensor_of : List ℕ → Option (List ℕ) → List ℕ
sensor_of old (some name) = strncpy 63 name ++ 0 ∷ []
sensor_of old none = strcpy old sensor_default

abbrev pub config_of : IspConfig → Option IspConfig → IspConfig
config_of old (some c) = c
config_of old none = record {
  ldch_enabled = true;
  ldch_level = ldch_level_full;
  ldch_mesh_path = strcpy old.ldch_mesh_path ldch_mesh_path_default;
  hdr_enabled = false;
  noise_reduction = true;
  auto_exposure = true;
  auto_white_balance = true;
}

module _ {F : Type 0} where
  -- The failures of the stubs for the lens correction are only logged. Result: the new state and
  -- the returned `int`.
  unfoldable pub isp_init : Option (List ℕ) → Option IspConfig → Isp F → Isp F × ℤ
  isp_init sensor_name config s =
      if s.status.initialized
      then (s, pos 0)
      else (let c = config_of s.config config in
          let t = record s { sensor_name = sensor_of s.sensor_name sensor_name; config = c } in
          if is_neg rkaiq_init_stub then (t, rkaiq_init_stub) else (
            record t {
              aiq_available = true;
              status = record s.status {
                initialized = true;
                running = false;
                ldch_enabled = c.ldch_enabled;
                ldch_level = c.ldch_level;
              };
            },
            pos 0,
          ))

  unfoldable pub isp_start : Isp F → Isp F × ℤ
  isp_start s =
      if not s.status.initialized
      then (s, neg einval)
      else (if s.status.running
          then (s, pos 0)
          else (if is_neg rkaiq_start_stub
              then (s, rkaiq_start_stub)
              else (record s { status = record s.status { running = true } }, pos 0)))

  unfoldable pub isp_stop : Isp F → Isp F × ℤ
  isp_stop s =
      if not s.status.running
      then (s, pos 0)
      else (record s { status = record s.status { running = false } }, pos 0)

  unfoldable pub isp_shutdown : Isp F → Isp F
  unfolding isp_stop
  isp_shutdown s =
      if not s.status.initialized
      then s
      else (let t = if s.status.running then (isp_stop s).0 else s in
          record t { aiq_available = false; status = record t.status { initialized = false } })

  unfoldable pub isp_set_ldch_enabled : Bool → Isp F → Isp F × ℤ
  isp_set_ldch_enabled enabled s =
      if not s.status.initialized
      then (s, neg einval)
      else elim (rkaiq_set_ldch_enable_stub enabled) [
        | pos zero ↦ (
          record s {
            config = record s.config { ldch_enabled = enabled };
            status = record s.status { ldch_enabled = enabled };
          },
          pos 0,
        )
        | ret ↦ (s, ret)
      ]

  unfoldable pub isp_set_ldch_level : ℕ → Isp F → Isp F × ℤ
  isp_set_ldch_level level s =
      if not s.status.initialized then (s, neg einval) else elim (rkaiq_set_ldch_level_stub level) [
        | pos zero ↦ (
          record s {
            config = record s.config { ldch_level = level };
            status = record s.status { ldch_level = level };
          },
          pos 0,
        )
        | ret ↦ (s, ret)
      ]

  -- The last byte of the array stays.
  unfoldable pub isp_set_ldch_mesh : Option (List ℕ) → Isp F → Isp F × ℤ
  isp_set_ldch_mesh none s = (s, neg einval)
  isp_set_ldch_mesh (some mesh_path) s =
      if not s.status.initialized
      then (s, neg einval)
      else elim (rkaiq_set_ldch_mesh_stub mesh_path) [
        | pos zero ↦ (
          record s {
            config = record s.config {
              ldch_mesh_path = strncpy 255 mesh_path ++ drop 255 s.config.ldch_mesh_path;
            };
          },
          pos 0,
        )
        | ret ↦ (s, ret)
      ]

  -- The manual values are not used.
  unfoldable pub isp_set_exposure : Bool → F → F → Isp F → Isp F × ℤ
  isp_set_exposure auto_mode manual_time_ms manual_gain s =
      if not s.status.initialized
      then (s, neg einval)
      else (record s { config = record s.config { auto_exposure = auto_mode } }, pos 0)

  unfoldable pub isp_set_white_balance : Bool → F → F → Isp F → Isp F × ℤ
  isp_set_white_balance auto_mode manual_r_gain manual_b_gain s =
      if not s.status.initialized
      then (s, neg einval)
      else (record s { config = record s.config { auto_white_balance = auto_mode } }, pos 0)
