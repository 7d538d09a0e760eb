-- ===== src/Pipeline/Setup.antt =====
-- The set-up and the shutdown of the vision pipeline: `vision_pipeline_init` and
-- `vision_pipeline_shutdown` of cgo/vision_pipeline.c.
use hardware_os.Base.{
  Bool, true, false, not, ◌||◌, Option, none, some, [], ◌∷◌, ◌++◌, if◌then◌else◌, replicate,
}
use hardware_os.Base.Int.{ℤ, pos, neg, is_neg}
use hardware_os.Base.Os.{enomem}
use hardware_os.Base.CString.{c_string, strncpy, strcpy}
use hardware_os.Base.Float.{FloatOps}
use hardware_os.Isp.{IspConfig, isp_init, isp_shutdown, ldch_level_full, sensor_default}
use hardware_os.Npu.{NpuConfig, ModelFile, npu_init, npu_shutdown, npu_default_model_path}
use hardware_os.Camera.{CameraConfig, InitOs, camera_init}
use hardware_os.Camera.Streaming.{camera_shutdown}
use hardware_os.Pipeline.{PipelineConfig, PipelineStatus, Device, vision_pipeline_stop}

-- What the system answers while the pipeline is set up.
pub record SetupOs : Type 0 where
  pub rgb_allocated : Bool
  pub encode_allocated : Bool
  pub camera_os : InitOs
  pub npu_input_allocated : Bool
  pub npu_output_allocated : Bool
  pub model_file : ModelFile

module _ {F : Type 0} (fl : FloatOps F) where
  open fl use {literal}

  abbrev pub pipeline_config_of : PipelineConfig F → Option (PipelineConfig F) → PipelineConfig F
  pipeline_config_of old (some c) = c
  pipeline_config_of old none = record {
    camera_width = 2304;
    camera_height = 1296;
    camera_fps = 30;
    ldch_enabled = true;
    ldch_level = ldch_level_full;
    model_path = strcpy old.model_path npu_default_model_path;
    confidence_threshold = literal 1 2;
    horizontal_fov_deg = literal 120 1;
    vertical_fov_deg = literal 90 1;
    person_only = false;
    encode_width = 1920;
    encode_height = 1080;
    bitrate_kbps = pos 1500;
    use_h265 = true;
  }

  -- The configurations that the pipeline passes on.
  abbrev pub camera_part : PipelineConfig F → CameraConfig
  camera_part c = record {
    width = c.camera_width;
    height = c.camera_height;
    fps = c.camera_fps;
    hdr_enabled = false;
    mirror = false;
    flip = false;
  }

  abbrev pub isp_part : PipelineConfig F → IspConfig
  isp_part c = record {
    ldch_enabled = c.ldch_enabled;
    ldch_level = c.ldch_level;
    ldch_mesh_path = replicate 256 0;
    hdr_enabled = false;
    noise_reduction = true;
    auto_exposure = true;
    auto_white_balance = true;
  }

  abbrev pub npu_part : PipelineConfig F → NpuConfig F
  npu_part c = record {
    model_path = strncpy 255 (c_string c.model_path) ++ 0 ∷ [];
    confidence_threshold = c.confidence_threshold;
    nms_threshold = literal 45 100;
    horizontal_fov_deg = c.horizontal_fov_deg;
    vertical_fov_deg = c.vertical_fov_deg;
    person_only = c.person_only;
  }

  -- From `camera_init` on: the failures of the three parts are only logged.
  init_parts : SetupOs → Device F → Device F
  init_parts os d =
      let c = d.pipe.config in
      let o = camera_init os.camera_os (some (camera_part c)) d.camera in
      let (isp, isp_ret) = isp_init (some sensor_default) (some (isp_part c)) d.isp in
      let (npu, npu_ret) =
        npu_init fl (some (npu_part c)) os.npu_input_allocated os.npu_output_allocated os.model_file
          d.npu in
      record {
        camera = o.camera;
        isp = isp;
        npu = npu;
        pipe = record d.pipe {
          npu_enabled = true;
          status = record d.pipe.status {
            camera_ready = not (is_neg o.ret) || d.pipe.status.camera_ready;
            isp_ready = not (is_neg isp_ret) || d.pipe.status.isp_ready;
            npu_ready = not (is_neg npu_ret) || d.pipe.status.npu_ready;
            encoder_ready = true;
            initialized = true;
          };
        };
      }

  unfoldable pub vision_pipeline_init :
      SetupOs → Option (PipelineConfig F) → Device F → Device F × ℤ
  unfolding init_parts
  vision_pipeline_init os config d =
      if d.pipe.status.initialized
      then (d, pos 0)
      else (let p = record d.pipe { config = pipeline_config_of d.pipe.config config } in
          if not os.rgb_allocated || not os.encode_allocated
          then (
            record d { pipe = record p { npu_rgb_buffer = false; encode_buffer = false } },
            neg enomem,
          )
          else (
            init_parts os
                (record d { pipe = record p { npu_rgb_buffer = true; encode_buffer = true } }),
            pos 0,
          ))

  abbrev pub no_status : PipelineStatus F
  no_status = record {
    initialized = false;
    running = false;
    camera_ready = false;
    isp_ready = false;
    npu_ready = false;
    encoder_ready = false;
    frames_captured = 0;
    frames_encoded = 0;
    frames_inferred = 0;
    capture_fps = literal 0 1;
    encode_fps = literal 0 1;
    inference_fps = literal 0 1;
    avg_inference_ms = literal 0 1;
    avg_encode_ms = literal 0 1;
    capture_errors = 0;
    encode_errors = 0;
    inference_errors = 0;
  }

  close_parts : Device F → Device F
  close_parts d = record {
    npu = npu_shutdown d.npu;
    isp = isp_shutdown d.isp;
    camera = (camera_shutdown d.camera).camera;
    pipe = record d.pipe { npu_rgb_buffer = false; encode_buffer = false; status = no_status };
  }

  unfoldable pub vision_pipeline_shutdown : Device F → Device F
  unfolding vision_pipeline_stop close_parts
  vision_pipeline_shutdown d =
      if not d.pipe.status.initialized
      then d
      else close_parts (if d.pipe.status.running then (vision_pipeline_stop d).0 else d)
