-- ===== src/Tests/Vision.antt =====
-- The vision pipeline at concrete inputs (cgo/vision_pipeline.c). The arithmetic on floats is that of
-- thousandths.
use hardware_os.Base.{ℕ, ◌≡◌, refl, true, false, none, some, List, [], ◌∷◌, replicate}
use hardware_os.Base.Int.{ℤ, pos, negsuc}
use hardware_os.Base.Os.{done}
use hardware_os.Base.Float.{milli}
use hardware_os.Camera.{Camera, null, default_config}
use hardware_os.Camera.Streaming.{StreamOs, camera_start_streaming}
use hardware_os.Npu.{NpuResult}
use hardware_os.Pipeline.{
  Pipeline, PipelineConfig, Device, on_camera_frame_callback, vision_pipeline_start,
  vision_pipeline_stop,
}
use hardware_os.Pipeline.Setup.{no_status}
use hardware_os.Pipeline.Frame.{FrameClock}
use hardware_os.Pipeline.Frame.Encoding.{
  keyframes, run_frames, every_sixtieth, keyframes-run_frames,
}
use hardware_os.Pipeline.Invariant as Control
use hardware_os.Tests.Processors.{isp_ready, npu_ready, empty_result, run_clock}

abbrev camera_off : Camera
camera_off = record {
  mipi_fd = negsuc 0;
  sensor_fd = negsuc 0;
  buffers = replicate 4 (record { start = null; size = 0 });
  buffer_count = 0;
  config = default_config;
  status = record {
    initialized = false;
    streaming = false;
    width = 0;
    height = 0;
    fps = 0;
    frame_count = 0;
    last_frame_ts_ns = 0;
  };
  callback = none;
  user_data = none;
  running = false;
}

abbrev pipeline_config : PipelineConfig ℤ
pipeline_config = record {
  camera_width = 1280;
  camera_height = 720;
  camera_fps = 30;
  ldch_enabled = true;
  ldch_level = 255;
  model_path = replicate 256 0;
  confidence_threshold = pos 500;
  horizontal_fov_deg = pos 120000;
  vertical_fov_deg = pos 90000;
  person_only = true;
  encode_width = 1280;
  encode_height = 720;
  bitrate_kbps = pos 2000;
  use_h265 = false;
}

-- Initialized, and not running.
abbrev pipeline_ready : Pipeline ℤ
pipeline_ready = record {
  config = pipeline_config;
  status = record (no_status milli) { initialized = true };
  video_callback = none;
  detection_callback = none;
  user_data = none;
  running = false;
  npu_rgb_buffer = true;
  encode_buffer = true;
  last_capture_time = 0;
  last_encode_time = 0;
  last_inference_time = 0;
  total_encode_time_us = 0;
  total_inference_time_us = 0;
  npu_enabled = true;
  npu_skip_count = 0;
  npu_skip_current = 0;
}

abbrev device : Device ℤ
device = record { pipe = pipeline_ready; camera = camera_off; isp = isp_ready; npu = npu_ready }

device-IsSound : Control.IsSound device
device-IsSound = record {
  flags_agree = refl;
  rgb_buffer = refl;
  encode_buffer = refl;
  runs_initialized = λ _. refl;
}

abbrev start_os : StreamOs
start_os = record { qbuf = λ i. done 0; stream_on = done 0; thread_created = true }

pipeline_step-IsSound_example :
    Control.IsSound (Control.step milli (Control.start start_os (some 1) none none) device).0
pipeline_step-IsSound_example =
    Control.pipeline_step-IsSound milli (Control.start start_os (some 1) none none) device
      device-IsSound

camera_refuses :
    camera_start_streaming start_os (some on_camera_frame_callback) none camera_off
    ≡ (camera_off, negsuc 21)
unfolding camera_start_streaming
camera_refuses = refl

vision_pipeline_start_fails_example :
    let (d', ret) = vision_pipeline_start milli start_os (some 1) none none device in
    ret ≡ negsuc 21
    × d'.pipe.status.running ≡ false
    × d'.isp.status.running ≡ true
    × vision_pipeline_stop d' ≡ (d', pos 0)
vision_pipeline_start_fails_example =
    Control.vision_pipeline_start_fails milli start_os (some 1) none none device camera_off 21 refl
      refl refl camera_refuses

abbrev running_device : Device ℤ
running_device = record device {
  pipe = record pipeline_ready {
    running = true;
    video_callback = some 1;
    status = record pipeline_ready.status { running = true; frames_encoded = 59 };
  };
}

abbrev frame_clock : FrameClock
frame_clock = record {
  now = 1000;
  encode_start = 1000;
  encode_end = 3000;
  infer_start = 1000;
  infer_end = 40000;
  run = run_clock;
}

abbrev two_frames : List (FrameClock × NpuResult ℤ × ℕ)
two_frames = (frame_clock, empty_result, 5) ∷ (frame_clock, empty_result, 6) ∷ []

keyframes-run_frames_example :
    keyframes milli (run_frames milli two_frames running_device).1
    ≡ every_sixtieth milli two_frames 59
keyframes-run_frames_example = keyframes-run_frames milli two_frames 1 running_device refl refl
