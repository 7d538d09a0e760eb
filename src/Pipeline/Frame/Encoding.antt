-- ===== src/Pipeline/Frame/Encoding.antt =====
-- What the vision pipeline delivers (cgo/vision_pipeline.c).
use hardware_os.Base.{
  ℕ, ◌%◌, ◌≡◌, refl, ap, ap₂, ◌∙◌, sym, Bool, true, false, not, some, List, [], ◌∷◌, ◌++◌, arith,
  ◌==◌, if◌then◌else◌, subst,
}
use hardware_os.Base.Float.{FloatOps}
use hardware_os.Npu.{NpuResult}
use hardware_os.Pipeline.{Device}
use hardware_os.Pipeline.Frame.{
  Delivery, video, detections, FrameClock, encode_frame, on_camera_frame, process_frame,
  encode_fork, inference_fork, count_capture, add64,
}

module _ {F : Type 0} (fl : FloatOps F) where
  -- A frame that comes while nothing else touches the device.
  abbrev pub alone : FrameClock → NpuResult F → ℕ → Device F → Device F × List (Delivery F)
  alone clock stack timestamp_ns d = on_camera_frame fl clock stack (λ e. e) (λ e. e) timestamp_ns d

  -- Without a video callback or with one, a frame that comes while the pipeline runs is counted, and
  -- one that comes when it does not run changes nothing and delivers nothing.
  on_camera_frame_stopped :
      (clock : FrameClock) (stack : NpuResult F) (mv md : Device F → Device F) (ts : ℕ)
      (d : Device F)
      → d.pipe.running ≡ false
      → on_camera_frame fl clock stack mv md ts d ≡ (d, [])
  unfolding on_camera_frame
  on_camera_frame_stopped clock stack mv md ts d off = ground arith

  abbrev pub keyframes : List (Delivery F) → List Bool
  keyframes [] = []
  keyframes (video cb size ts key ud ∷ out) = key ∷ keyframes out
  keyframes (detections cb result ud ∷ out) = keyframes out

  inference_quiet :
      (clock : FrameClock) (stack : NpuResult F) (d : Device F)
      → (keyframes (inference_fork fl clock stack (λ e. e) d).1 ≡ [])
        × ((inference_fork fl clock stack (λ e. e) d).0.pipe.status.frames_encoded
            ≡ d.pipe.status.frames_encoded)
        × ((inference_fork fl clock stack (λ e. e) d).0.pipe.running ≡ d.pipe.running)
        × ((inference_fork fl clock stack (λ e. e) d).0.pipe.video_callback ≡ d.pipe.video_callback)
  unfolding inference_fork
  inference_quiet clock stack d = ground arith

  -- What a frame does to the count and which keyframe flags it delivers, when a video callback is
  -- set and nothing else touches the device.
  record IsStep (d : Device F) (r : Device F × List (Delivery F)) : Type 0 where
    flags : keyframes r.1 ≡ (d.pipe.status.frames_encoded % 60 == 0) ∷ []
    count : r.0.pipe.status.frames_encoded ≡ add64 d.pipe.status.frames_encoded 1
    still : r.0.pipe.running ≡ d.pipe.running
    callback : r.0.pipe.video_callback ≡ d.pipe.video_callback

  keyframes-append :
      (xs ys : List (Delivery F)) → keyframes (xs ++ ys) ≡ keyframes xs ++ keyframes ys
  keyframes-append [] ys = refl
  keyframes-append (video cb size ts key ud ∷ xs) ys =
      ap (λ (t : List Bool). key ∷ t) (keyframes-append xs ys)
  keyframes-append (detections cb result ud ∷ xs) ys = keyframes-append xs ys

  -- The first fork with a callback.
  encode-IsStep :
      (clock : FrameClock) (ts cb : ℕ) (d : Device F)
      → d.pipe.video_callback ≡ some cb
      → IsStep d (encode_fork fl clock ts (λ e. e) d)
  unfolding encode_fork encode_frame
  encode-IsStep clock ts cb d set = ground arith

  join-IsStep :
      (clock : FrameClock) (stack : NpuResult F) (d : Device F) (r : Device F × List (Delivery F))
      → IsStep d r
      → IsStep d (
        (inference_fork fl clock stack (λ e. e) r.0).0,
        r.1 ++ (inference_fork fl clock stack (λ e. e) r.0).1,
      )
  join-IsStep clock stack d r v =
      let (quiet, count, still, callback) = inference_quiet clock stack r.0 in
      record {
        flags =
            keyframes-append r.1 (inference_fork fl clock stack (λ e. e) r.0).1
            ∙ ap₂ (λ (xs ys : List Bool). xs ++ ys) v.flags quiet;
        count = count ∙ v.count;
        still = still ∙ v.still;
        callback = callback ∙ v.callback;
      }

  process-IsStep :
      (clock : FrameClock) (stack : NpuResult F) (ts cb : ℕ) (d : Device F)
      → d.pipe.video_callback ≡ some cb
      → IsStep d (process_frame fl clock stack (λ e. e) (λ e. e) ts d)
  unfolding process_frame count_capture
  process-IsStep clock stack ts cb d set =
      let d' : Device F = record d { pipe = count_capture fl clock.now d.pipe } in
      let v = encode-IsStep clock ts cb d' set in
      let w = join-IsStep clock stack d' (encode_fork fl clock ts (λ e. e) d') v in
      record { flags = w.flags; count = w.count; still = w.still; callback = w.callback }

  frame-IsStep :
      (clock : FrameClock) (stack : NpuResult F) (ts cb : ℕ) (d : Device F)
      → d.pipe.running ≡ true
      → d.pipe.video_callback ≡ some cb
      → IsStep d (alone clock stack ts d)
  unfolding on_camera_frame
  frame-IsStep clock stack ts cb d on set =
      let processed = process_frame fl clock stack (λ e. e) (λ e. e) ts d in
      subst (IsStep d)
        (sym (
          ap {B = Device F × List (Delivery F)} (λ (b : Bool). if not b then (d, []) else processed)
            on))
        (process-IsStep clock stack ts cb d set)

  -- What the frames of a stream bring along: the clock, the detector's array and the time stamp.
  abbrev pub run_frames :
      List (FrameClock × NpuResult F × ℕ) → Device F → Device F × List (Delivery F)
  run_frames [] d = (d, [])
  run_frames ((clock, stack, ts) ∷ rest) d =
      let (d', out) = alone clock stack ts d in
      let (d'', out') = run_frames rest d' in (d'', out ++ out')

  -- One flag for each frame from number n on: set for every sixtieth.
  abbrev pub every_sixtieth : List (FrameClock × NpuResult F × ℕ) → ℕ → List Bool
  every_sixtieth [] n = []
  every_sixtieth (f ∷ rest) n = (n % 60 == 0) ∷ every_sixtieth rest (add64 n 1)

  -- While the pipeline runs with a video callback, and nothing else touches the device, every frame
  -- of the camera is encoded and delivered, whatever the detector does, and the keyframes among them
  -- are those whose number since the start is a multiple of 60.
  pub keyframes-run_frames :
      (frames : List (FrameClock × NpuResult F × ℕ)) (cb : ℕ) (d : Device F)
      → d.pipe.running ≡ true
      → d.pipe.video_callback ≡ some cb
      → keyframes (run_frames frames d).1 ≡ every_sixtieth frames d.pipe.status.frames_encoded
  keyframes-run_frames [] cb d on set = refl
  keyframes-run_frames ((clock, stack, ts) ∷ rest) cb d on set =
      let v = frame-IsStep clock stack ts cb d on set in
      let d' = (alone clock stack ts d).0 in
      keyframes-append (alone clock stack ts d).1 (run_frames rest d').1
      ∙ ap₂ (λ (xs ys : List Bool). xs ++ ys) v.flags
          (keyframes-run_frames rest cb d' (v.still ∙ on) (v.callback ∙ set)
            ∙ ap (every_sixtieth rest) v.count)
