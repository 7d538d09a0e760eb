-- ===== src/Pipeline/Frame.antt =====
-- The frame callback of the vision pipeline: `on_camera_frame` and `encode_frame` of
-- targets/rv1106/native/cgo/vision_pipeline.c. The lock is given up while a client's callback runs:
-- what other threads do to the state meanwhile is an argument, a function for each of the two calls.
-- The stubs that resize an image do nothing and return 0, and are left out.
pub mod Encoding
use hardware_os.Base.{
  ℕ, zero, suc, ◌+◌, ◌-◌, ◌%◌, ◌^◌, Bool, true, false, not, ◌&&◌, Option, none, some, List, [], ◌∷◌,
  ◌++◌, ltb, ◌==◌, if◌then◌else◌, is_some,
}
use hardware_os.Base.Int.{ℤ, pos, negsuc}
use hardware_os.Base.Float.{FloatOps}
use hardware_os.Npu.{Npu, NpuResult}
use hardware_os.Npu.Inference.{RunClock, npu_inference}
use hardware_os.Pipeline.{Pipeline, PipelineStatus, Device}

-- What a client's callback is given.
pub data Delivery (F : Type 0) : Type 0 where
  video :
      (callback : ℕ) (size timestamp_ns : ℕ) (is_keyframe : Bool) (user_data : Option ℕ)
      → Delivery F
  detections : (callback : ℕ) (result : NpuResult F) (user_data : Option ℕ) → Delivery F

-- The times that the callback reads, in microseconds, and those of the run of the detector.
pub record FrameClock : Type 0 where
  pub now : ℕ
  pub encode_start : ℕ
  pub encode_end : ℕ
  pub infer_start : ℕ
  pub infer_end : ℕ
  pub run : RunClock

-- A `uint64_t` difference and sum.
abbrev pub elapsed : ℕ → ℕ → ℕ
elapsed later earlier = (later + 2 ^ 64 - earlier) % 2 ^ 64

abbrev pub add64 : ℕ → ℕ → ℕ
add64 a b = (a + b) % 2 ^ 64

module _ {F : Type 0} where
  -- The stub: the returned `int`, the size and whether the frame is a keyframe.
  unfoldable pub encode_frame : Pipeline F → ℤ × ℕ × Bool
  encode_frame p = (pos 0, 1024, p.status.frames_encoded % 60 == 0)

  abbrev pub video_of : Option ℕ → ℕ → ℕ → Bool → Option ℕ → List (Delivery F)
  video_of none size timestamp_ns is_keyframe user_data = []
  video_of (some cb) size timestamp_ns is_keyframe user_data =
      video cb size timestamp_ns is_keyframe user_data ∷ []

  abbrev pub detections_of : Option ℕ → Option (NpuResult F) → Option ℕ → List (Delivery F)
  detections_of (some cb) (some result) user_data = detections cb result user_data ∷ []
  detections_of _ _ user_data = []

module _ {F : Type 0} (fl : FloatOps F) where
  open fl use {literal, of_nat, plus, times, divide}

  -- A rate after an event at `now`, with the one before at `last`; 0 means none.
  update_fps : ℕ → ℕ → F → F
  update_fps last now fps =
      if ltb 0 last && ltb 0 (elapsed now last)
      then plus (times (literal 9 10) fps)
          (times (literal 1 10) (divide (literal 1000000 1) (of_nat (elapsed now last))))
      else fps

  average_ms : ℕ → ℕ → F
  average_ms total_us count = divide (divide (of_nat total_us) (of_nat count)) (literal 1000 1)

  unfoldable pub count_capture : ℕ → Pipeline F → Pipeline F
  unfolding update_fps
  count_capture now p = record p {
    last_capture_time = now;
    status = record p.status {
      frames_captured = add64 p.status.frames_captured 1;
      capture_fps = update_fps p.last_capture_time now p.status.capture_fps;
    };
  }

  -- The statistics of a frame that was encoded.
  count_encode : FrameClock → Pipeline F → Pipeline F
  unfolding update_fps average_ms
  count_encode clock p =
      let total = add64 p.total_encode_time_us (elapsed clock.encode_end clock.encode_start) in
      let encoded = add64 p.status.frames_encoded 1 in
      record p {
        total_encode_time_us = total;
        last_encode_time = clock.encode_end;
        status = record p.status {
          frames_encoded = encoded;
          avg_encode_ms = average_ms total encoded;
          encode_fps = update_fps p.last_encode_time clock.encode_end p.status.encode_fps;
        };
      }

  count_encode_error : FrameClock → Pipeline F → Pipeline F
  count_encode_error clock p = record p {
    total_encode_time_us =
        add64 p.total_encode_time_us (elapsed clock.encode_end clock.encode_start);
    status = record p.status { encode_errors = (p.status.encode_errors + 1) % 2 ^ 32 };
  }

  abbrev pub is_encoded : ℤ × ℕ × Bool → Bool
  is_encoded (pos zero, size, is_keyframe) = ltb 0 size
  is_encoded _ = false

  -- The first fork: encode the frame and hand it over.
  unfoldable pub encode_fork :
      FrameClock → ℕ → (Device F → Device F) → Device F → Device F × List (Delivery F)
  unfolding count_encode count_encode_error
  encode_fork clock timestamp_ns meanwhile d =
      let encoded = encode_frame d.pipe in
      if not (is_some d.pipe.video_callback)
      then (d, [])
      else (if is_encoded encoded
          then (
            meanwhile (record d { pipe = count_encode clock d.pipe }),
            video_of d.pipe.video_callback encoded.1 timestamp_ns encoded.2 d.pipe.user_data,
          )
          else (record d { pipe = count_encode_error clock d.pipe }, []))

  count_inference : FrameClock → Pipeline F → Pipeline F
  unfolding update_fps average_ms
  count_inference clock p =
      let total = add64 p.total_inference_time_us (elapsed clock.infer_end clock.infer_start) in
      let inferred = add64 p.status.frames_inferred 1 in
      record p {
        total_inference_time_us = total;
        last_inference_time = clock.infer_end;
        status = record p.status {
          frames_inferred = inferred;
          avg_inference_ms = average_ms total inferred;
          inference_fps = update_fps p.last_inference_time clock.infer_end p.status.inference_fps;
        };
      }

  count_inference_error : FrameClock → Pipeline F → Pipeline F
  count_inference_error clock p = record p {
    total_inference_time_us =
        add64 p.total_inference_time_us (elapsed clock.infer_end clock.infer_start);
    status = record p.status { inference_errors = (p.status.inference_errors + 1) % 2 ^ 32 };
  }

  -- After `npu_inference`: the state with the next number of frames to skip, and its answer.
  finish_inference :
      FrameClock
      → (Device F → Device F)
      → Device F
      → Npu F × ℤ × Option (NpuResult F)
      → Device F × List (Delivery F)
  unfolding count_inference count_inference_error
  finish_inference clock meanwhile d (npu, pos zero, result) = (
    meanwhile (record d { npu = npu; pipe = count_inference clock d.pipe }),
    detections_of d.pipe.detection_callback result d.pipe.user_data,
  )
  finish_inference clock meanwhile d (npu, ret, result) =
      (record d { npu = npu; pipe = count_inference_error clock d.pipe }, [])

  -- The second fork: run the detector on every frame that is not skipped. `stack` is the
  -- uninitialised local `result`.
  unfoldable pub inference_fork :
      FrameClock → NpuResult F → (Device F → Device F) → Device F → Device F × List (Delivery F)
  unfolding finish_inference
  inference_fork clock stack meanwhile d =
      if not (d.pipe.npu_enabled && is_some d.pipe.detection_callback)
      then (d, [])
      else (if ltb 0 d.pipe.npu_skip_current
          then (
            record d { pipe = record d.pipe { npu_skip_current = d.pipe.npu_skip_current - 1 } },
            [],
          )
          else finish_inference clock meanwhile
              (record d { pipe = record d.pipe { npu_skip_current = d.pipe.npu_skip_count } })
              (npu_inference fl true (some stack) clock.run d.npu))

  -- The two forks, one after the other.
  unfoldable pub process_frame :
      FrameClock
      → NpuResult F
      → (Device F → Device F)
      → (Device F → Device F)
      → (timestamp_ns : ℕ) → Device F
      → Device F × List (Delivery F)
  process_frame clock stack meanwhile_video meanwhile_detections timestamp_ns d =
      let (d', out) =
        encode_fork clock timestamp_ns meanwhile_video
          (record d { pipe = count_capture clock.now d.pipe }) in
      let (d'', out') = inference_fork clock stack meanwhile_detections d' in (d'', out ++ out')

  -- The device after a frame, and what was delivered, in order.
  unfoldable pub on_camera_frame :
      FrameClock
      → NpuResult F
      → (Device F → Device F)
      → (Device F → Device F)
      → (timestamp_ns : ℕ) → Device F
      → Device F × List (Delivery F)
  on_camera_frame clock stack meanwhile_video meanwhile_detections timestamp_ns d =
      if not d.pipe.running
      then (d, [])
      else process_frame clock stack meanwhile_video meanwhile_detections timestamp_ns d
