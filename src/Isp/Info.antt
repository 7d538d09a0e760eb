-- ===== src/Isp/Info.antt =====
-- What the image signal processor reports, and the angles of a pixel (cgo/isp.c and isp.h).
use hardware_os.Base.{Bool, not, Option, none, some, if◌then◌else◌}
use hardware_os.Base.Int.{ℤ, pos, neg}
use hardware_os.Base.Os.{einval}
use hardware_os.Base.Float.{FloatOps}
use hardware_os.Isp.{Isp}

pub record ExposureInfo (F : Type 0) : Type 0 where
  pub exposure_time_ms : F
  pub analog_gain : F
  pub digital_gain : F
  pub iso : F

pub record AwbInfo (F : Type 0) : Type 0 where
  pub r_gain : F
  pub g_gain : F
  pub b_gain : F
  pub color_temp_k : ℤ

module _ {F : Type 0} (fl : FloatOps F) where
  open fl use {literal, times, minus}

  -- `wanted` is false for a NULL pointer; `none` leaves `*info` alone.
  unfoldable pub isp_get_exposure_info : Bool → Isp F → ℤ × Option (ExposureInfo F)
  isp_get_exposure_info wanted s =
      if not wanted
      then (neg einval, none)
      else (if not s.status.initialized then (neg einval, none) else (
        pos 0,
        some (record {
          exposure_time_ms = s.status.current_exposure_time_ms;
          analog_gain = s.status.current_gain;
          digital_gain = literal 1 1;
          iso = times s.status.current_gain (literal 100 1);
        }),
      ))

  unfoldable pub isp_get_awb_info : Bool → Isp F → ℤ × Option (AwbInfo F)
  isp_get_awb_info wanted s =
      if not wanted
      then (neg einval, none)
      else (if not s.status.initialized then (neg einval, none) else (
        pos 0,
        some (record {
          r_gain = literal 1 1;
          g_gain = literal 1 1;
          b_gain = literal 1 1;
          color_temp_k = s.status.current_color_temp_k;
        }),
      ))

  unfoldable pub isp_calculate_azimuth : F → F → F
  isp_calculate_azimuth pixel_x fov_degrees = times (minus pixel_x (literal 1 2)) fov_degrees

  unfoldable pub isp_calculate_elevation : F → F → F
  isp_calculate_elevation pixel_y fov_degrees = times (minus (literal 1 2) pixel_y) fov_degrees
