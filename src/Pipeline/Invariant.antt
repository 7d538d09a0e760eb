-- ===== src/Pipeline/Invariant.antt =====
-- What the controlling operations of the vision pipeline keep true (cgo/vision_pipeline.c).
use hardware_os.Base.{
  ℕ, ◌≡◌, refl, sym, arith, ◌∙◌, Bool, true, false, not, Option, none, some, if◌then◌else◌,
}
use hardware_os.Base.Int.{ℤ, neg, pos, negsuc}
use hardware_os.Base.Os.{einval}
use hardware_os.Base.Float.{FloatOps}
use hardware_os.Isp.{Isp, isp_start}
use hardware_os.Camera.{Camera}
use hardware_os.Camera.Streaming.{StreamOs, camera_start_streaming}
use hardware_os.Pipeline.{
  PipelineConfig, Device, begin, finish_start, vision_pipeline_start, vision_pipeline_stop,
  vision_pipeline_set_bitrate, vision_pipeline_set_npu_enabled, vision_pipeline_set_ldch,
  vision_pipeline_request_keyframe, on_camera_frame_callback,
}
use hardware_os.Pipeline.Setup.{SetupOs, vision_pipeline_init, vision_pipeline_shutdown}

-- The controlling operations with what the system answers to them.
pub data PipelineOp (F : Type 0) : Type 0 where
  init : SetupOs → Option (PipelineConfig F) → PipelineOp F
  start : StreamOs → Option ℕ → Option ℕ → Option ℕ → PipelineOp F
  stop : PipelineOp F
  shutdown : PipelineOp F
  set_bitrate : ℤ → PipelineOp F
  request_keyframe : PipelineOp F
  set_npu_enabled : Bool → PipelineOp F
  set_ldch : Bool → ℕ → PipelineOp F

-- Between two operations: the flag that the frame callback reads is the reported one, an initialized
-- pipeline has its two buffers and no other one has, and only an initialized one runs.
pub record IsSound {F : Type 0} (d : Device F) : Type 0 where
  pub flags_agree : d.pipe.running ≡ d.pipe.status.running
  pub rgb_buffer : d.pipe.npu_rgb_buffer ≡ d.pipe.status.initialized
  pub encode_buffer : d.pipe.encode_buffer ≡ d.pipe.status.initialized
  pub runs_initialized : d.pipe.status.running ≡ true → d.pipe.status.initialized ≡ true

module _ {F : Type 0} (fl : FloatOps F) where
  abbrev pub step : PipelineOp F → Device F → Device F × ℤ
  step (init os c) d = vision_pipeline_init fl os c d
  step (start os v n u) d = vision_pipeline_start fl os v n u d
  step stop d = vision_pipeline_stop d
  step shutdown d = (vision_pipeline_shutdown fl d, pos 0)
  step (set_bitrate b) d = vision_pipeline_set_bitrate b d
  step request_keyframe d = vision_pipeline_request_keyframe d
  step (set_npu_enabled b) d = vision_pipeline_set_npu_enabled b d
  step (set_ldch b l) d = vision_pipeline_set_ldch b l d

  init-IsSound :
      (os : SetupOs) (c : Option (PipelineConfig F)) (d : Device F)
      → IsSound d
      → IsSound (vision_pipeline_init fl os c d).0
  unfolding vision_pipeline_init
  init-IsSound os c d sound = ground arith

  finish_start-IsSound :
      (r : Camera × ℤ) (d : Device F)
      → d.pipe.status.running ≡ false
      → d.pipe.running ≡ true
      → d.pipe.status.initialized ≡ true
      → d.pipe.npu_rgb_buffer ≡ true
      → d.pipe.encode_buffer ≡ true
      → IsSound (finish_start r d).0
  unfolding finish_start
  finish_start-IsSound (camera, pos n) d idle flag up rgb enc = record {
    flags_agree = flag;
    rgb_buffer = rgb ∙ sym up;
    encode_buffer = enc ∙ sym up;
    runs_initialized = λ _. up;
  }
  finish_start-IsSound (camera, negsuc n) d idle flag up rgb enc = record {
    flags_agree = sym idle;
    rgb_buffer = rgb ∙ sym up;
    encode_buffer = enc ∙ sym up;
    runs_initialized = λ _. up;
  }

  guarded :
      (up on : Bool) (r : Device F × ℤ) (d : Device F)
      → IsSound d
      → (up ≡ true → on ≡ false → IsSound r.0)
      → IsSound (if not up then (d, neg einval) else (if on then (d, pos 0) else r)).0
  guarded false on r d sound next = sound
  guarded true true r d sound next = sound
  guarded true false r d sound next = next refl refl

  started :
      (os : StreamOs) (v n u : Option ℕ) (d : Device F)
      → IsSound d
      → d.pipe.status.initialized ≡ true
      → d.pipe.status.running ≡ false
      → IsSound
          (finish_start
            (camera_start_streaming os (some on_camera_frame_callback) none d.camera)
            (record d { pipe = begin fl v n u d.pipe; isp = (isp_start d.isp).0 })).0
  unfolding begin
  started os v n u d sound up idle =
      finish_start-IsSound _ _ idle refl up (sound.rgb_buffer ∙ up) (sound.encode_buffer ∙ up)

  start-IsSound :
      (os : StreamOs) (v n u : Option ℕ) (d : Device F)
      → IsSound d
      → IsSound (vision_pipeline_start fl os v n u d).0
  unfolding vision_pipeline_start
  start-IsSound os v n u d sound =
      let t = record d { pipe = begin fl v n u d.pipe; isp = (isp_start d.isp).0 } in
      let r =
        finish_start (camera_start_streaming os (some on_camera_frame_callback) none d.camera) t in
      guarded d.pipe.status.initialized d.pipe.status.running r d sound (started os v n u d sound)

  stop-IsSound : (d : Device F) → IsSound d → IsSound (vision_pipeline_stop d).0
  unfolding vision_pipeline_stop
  stop-IsSound d sound = ground arith

  shutdown-IsSound : (d : Device F) → IsSound d → IsSound (vision_pipeline_shutdown fl d)
  unfolding vision_pipeline_shutdown vision_pipeline_stop
  shutdown-IsSound d sound = ground arith

  -- Every controlling operation, in whatever way it succeeds or fails, keeps the pipeline sound.
  pub pipeline_step-IsSound : (o : PipelineOp F) (d : Device F) → IsSound d → IsSound (step o d).0
  unfolding vision_pipeline_set_bitrate vision_pipeline_request_keyframe
      vision_pipeline_set_npu_enabled vision_pipeline_set_ldch
  pipeline_step-IsSound (init os c) d sound = init-IsSound os c d sound
  pipeline_step-IsSound (start os v n u) d sound = start-IsSound os v n u d sound
  pipeline_step-IsSound stop d sound = stop-IsSound d sound
  pipeline_step-IsSound shutdown d sound = shutdown-IsSound d sound
  pipeline_step-IsSound (set_bitrate b) d sound = record {
    flags_agree = sound.flags_agree;
    rgb_buffer = sound.rgb_buffer;
    encode_buffer = sound.encode_buffer;
    runs_initialized = sound.runs_initialized;
  }
  pipeline_step-IsSound request_keyframe d sound = sound
  pipeline_step-IsSound (set_npu_enabled b) d sound = record {
    flags_agree = sound.flags_agree;
    rgb_buffer = sound.rgb_buffer;
    encode_buffer = sound.encode_buffer;
    runs_initialized = sound.runs_initialized;
  }
  pipeline_step-IsSound (set_ldch b l) d sound = record {
    flags_agree = sound.flags_agree;
    rgb_buffer = sound.rgb_buffer;
    encode_buffer = sound.encode_buffer;
    runs_initialized = sound.runs_initialized;
  }

  isp_starts : (s : Isp F) → s.status.initialized ≡ true → (isp_start s).0.status.running ≡ true
  unfolding isp_start
  isp_starts s up = ground arith

  -- Where the pipeline is initialized and not running, and the camera cannot start,
  -- `vision_pipeline_start` fails with the camera's error, but an initialized image signal processor is left running: `vision_pipeline_stop` then does nothing.
  pub vision_pipeline_start_fails :
      (os : StreamOs) (v n u : Option ℕ) (d : Device F) (camera : Camera) (e : ℕ)
      → d.pipe.status.initialized ≡ true
      → d.pipe.status.running ≡ false
      → d.isp.status.initialized ≡ true
      → camera_start_streaming os (some on_camera_frame_callback) none d.camera ≡ (camera, negsuc e)
      → let (d', ret) = vision_pipeline_start fl os v n u d in
        ret ≡ negsuc e
        × d'.pipe.status.running ≡ false
        × d'.isp.status.running ≡ true
        × vision_pipeline_stop d' ≡ (d', pos 0)
  unfolding vision_pipeline_start finish_start begin vision_pipeline_stop
  vision_pipeline_start_fails os v n u d camera e up idle isp_up bad =
      ground (arith, bad, isp_starts d.isp isp_up)
