-- ===== src/Pipeline.antt =====
-- The vision pipeline: targets/rv1106/native/cgo/vision_pipeline.c and vision_pipeline.h, over the
-- camera, the image signal processor and the neural processor. The operations here are those of one
-- controlling thread; Pipeline/Setup has the set-up and the shutdown, Pipeline/Frame the frame
-- callback.
pub mod Frame
pub mod Invariant
pub mod Setup
use hardware_os.Base.{
  ℕ, zero, suc, ◌+◌, Bool, true, false, not, ◌&&◌, ◌||◌, Option, none, some, List, [], ◌∷◌, ◌++◌,
  ◌==◌, if◌then◌else◌, replicate,
}
use hardware_os.Base.Int.{ℤ, pos, negsuc, neg, is_neg}
use hardware_os.Base.Os.{einval, enomem}
use hardware_os.Base.CString.{c_string, strncpy, strcpy}
use hardware_os.Base.Float.{FloatOps}
use hardware_os.Isp.{
  Isp, IspConfig, isp_init, isp_start, isp_stop, isp_shutdown, isp_set_ldch_enabled,
  isp_set_ldch_level, ldch_level_full, sensor_default,
}
use hardware_os.Npu.{Npu, NpuConfig, ModelFile, npu_init, npu_shutdown, npu_default_model_path}
use hardware_os.Camera.{Camera, CameraConfig, InitOs, camera_init}
use hardware_os.Camera.Streaming.{
  StreamOs, camera_start_streaming, camera_stop_streaming, camera_shutdown,
}

pub record PipelineConfig (F : Type 0) : Type 0 where
  pub camera_width : ℕ
  pub camera_height : ℕ
  pub camera_fps : ℕ
  pub ldch_enabled : Bool
  pub ldch_level : ℕ
  pub model_path : List ℕ  -- char[256]
  pub confidence_threshold : F
  pub horizontal_fov_deg : F
  pub vertical_fov_deg : F
  pub person_only : Bool
  pub encode_width : ℕ
  pub encode_height : ℕ
  pub bitrate_kbps : ℤ
  pub use_h265 : Bool

-- Without the text `last_error`.
pub record PipelineStatus (F : Type 0) : Type 0 where
  pub initialized : Bool
  pub running : Bool
  pub camera_ready : Bool
  pub isp_ready : Bool
  pub npu_ready : Bool
  pub encoder_ready : Bool
  pub frames_captured : ℕ  -- uint64_t
  pub frames_encoded : ℕ  -- uint64_t
  pub frames_inferred : ℕ  -- uint64_t
  pub capture_fps : F
  pub encode_fps : F
  pub inference_fps : F
  pub avg_inference_ms : F
  pub avg_encode_ms : F
  pub capture_errors : ℕ
  pub encode_errors : ℕ
  pub inference_errors : ℕ

-- `g_pipeline`. A callback is known by a number, and `none` is NULL; of a buffer it is kept whether
-- it is there.
pub record Pipeline (F : Type 0) : Type 0 where
  pub config : PipelineConfig F
  pub status : PipelineStatus F
  pub video_callback : Option ℕ
  pub detection_callback : Option ℕ
  pub user_data : Option ℕ
  pub running : Bool
  pub npu_rgb_buffer : Bool
  pub encode_buffer : Bool
  pub last_capture_time : ℕ
  pub last_encode_time : ℕ
  pub last_inference_time : ℕ
  pub total_encode_time_us : ℕ
  pub total_inference_time_us : ℕ
  pub npu_enabled : Bool
  pub npu_skip_count : ℕ
  pub npu_skip_current : ℕ

-- The four modules together.
pub record Device (F : Type 0) : Type 0 where
  pub pipe : Pipeline F
  pub camera : Camera
  pub isp : Isp F
  pub npu : Npu F

-- The number by which the camera knows `on_camera_frame`.
abbrev pub on_camera_frame_callback : ℕ
on_camera_frame_callback = 0

module _ {F : Type 0} where
  -- From the lock after `camera_start_streaming` on.
  unfoldable pub finish_start : Camera × ℤ → Device F → Device F × ℤ
  finish_start (camera, ret) d =
      if is_neg ret
      then (record d { camera = camera; pipe = record d.pipe { running = false } }, ret)
      else (
        record d {
          camera = camera;
          pipe = record d.pipe { status = record d.pipe.status { running = true } };
        },
        pos 0,
      )

  unfoldable pub vision_pipeline_stop : Device F → Device F × ℤ
  vision_pipeline_stop d = if not d.pipe.status.running then (d, pos 0) else (
    record d {
      camera = (camera_stop_streaming d.camera).0;
      isp = (isp_stop d.isp).0;
      pipe = record d.pipe {
        running = false;
        status = record d.pipe.status { running = false };
        video_callback = none;
        detection_callback = none;
      };
    },
    pos 0,
  )

  unfoldable pub vision_pipeline_set_bitrate : ℤ → Device F → Device F × ℤ
  vision_pipeline_set_bitrate bitrate_kbps d = (
    record d {
      pipe = record d.pipe { config = record d.pipe.config { bitrate_kbps = bitrate_kbps } };
    },
    pos 0,
  )

  unfoldable pub vision_pipeline_request_keyframe : Device F → Device F × ℤ
  vision_pipeline_request_keyframe d = (d, pos 0)

  unfoldable pub vision_pipeline_set_npu_enabled : Bool → Device F → Device F × ℤ
  vision_pipeline_set_npu_enabled enabled d =
      (record d { pipe = record d.pipe { npu_enabled = enabled } }, pos 0)

  -- The level is set only if enabling succeeded, and only when it enables.
  set_level : Bool → ℕ → Isp F × ℤ → Isp F × ℤ
  set_level enabled level (isp, pos zero) =
      if enabled then isp_set_ldch_level level isp else (isp, pos 0)
  set_level enabled level (isp, ret) = (isp, ret)

  -- The configuration takes the new values whatever the processor answers.
  unfoldable pub vision_pipeline_set_ldch : Bool → ℕ → Device F → Device F × ℤ
  unfolding set_level
  vision_pipeline_set_ldch enabled level d =
      let (isp, ret) = set_level enabled level (isp_set_ldch_enabled enabled d.isp) in
      (
        record d {
          isp = isp;
          pipe = record d.pipe {
            config = record d.pipe.config { ldch_enabled = enabled; ldch_level = level };
          };
        },
        ret,
      )

module _ {F : Type 0} (fl : FloatOps F) where
  open fl use {literal}

  -- The statistics and the callbacks when a stream begins.
  unfoldable pub begin : Option ℕ → Option ℕ → Option ℕ → Pipeline F → Pipeline F
  begin video_cb detection_cb user_data p = record p {
    video_callback = video_cb;
    detection_callback = detection_cb;
    user_data = user_data;
    running = true;
    status = record p.status {
      frames_captured = 0;
      frames_encoded = 0;
      frames_inferred = 0;
      capture_fps = literal 0 1;
      encode_fps = literal 0 1;
      inference_fps = literal 0 1;
    };
    total_encode_time_us = 0;
    total_inference_time_us = 0;
    last_capture_time = 0;
    last_encode_time = 0;
    last_inference_time = 0;
  }

  -- A failure of `isp_start` is only logged.
  unfoldable pub vision_pipeline_start :
      StreamOs → Option ℕ → Option ℕ → Option ℕ → Device F → Device F × ℤ
  vision_pipeline_start os video_cb detection_cb user_data d =
      if not d.pipe.status.initialized
      then (d, neg einval)
      else (if d.pipe.status.running
          then (d, pos 0)
          else finish_start
              (camera_start_streaming os (some on_camera_frame_callback) none d.camera)
              (record d {
                pipe = begin video_cb detection_cb user_data d.pipe;
                isp = (isp_start d.isp).0;
              }))
