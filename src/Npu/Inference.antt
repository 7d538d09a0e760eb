-- ===== src/Npu/Inference.antt =====
-- One run of the detector: `npu_inference` and the loops that it makes over the detections
-- (targets/rv1106/native/cgo/npu.c). What is copied into the processor's input buffer is left out,
-- since the stubbed runtime reads nothing of it.
pub mod Persons
pub mod Run
use hardware_os.Base.{
  ℕ, zero, suc, ◌+◌, ◌-◌, ◌/◌, ◌%◌, ◌^◌, Bool, true, false, not, ◌&&◌, ◌||◌, Option, none, some,
  List, ltb, ◌==◌, if◌then◌else◌, set, get_elem?,
}
use hardware_os.Base.Int.{ℤ, pos, negsuc, neg, is_neg}
use hardware_os.Base.Os.{einval, enomem}
use hardware_os.Base.Float.{FloatOps}
use hardware_os.Isp.Info.{isp_calculate_azimuth, isp_calculate_elevation}
use hardware_os.Npu.{NpuConfig, Npu, Detection, NpuResult, npu_max_detections, rknn_run_stub}

abbrev pub yolo_class_person : ℕ
yolo_class_person = 0

abbrev pub is_person : {F : Type 0} → Detection F → Bool
is_person d = elim d.class_id [ pos n ↦ n == yolo_class_person | negsuc n ↦ false ]

module _ {F : Type 0} where
  -- `if (write_idx != i) detections[write_idx] = detections[i];`
  place : List (Detection F) → ℕ → ℕ → Detection F → List (Detection F)
  place detections write_idx i d = if write_idx == i then detections else set detections write_idx d

  -- The compaction under `person_only`, over the rounds that are left: the array and `write_idx`.
  -- An index outside the array ends it; it does not occur.
  pub filter_loop : ℕ → ℕ → ℕ → List (Detection F) → List (Detection F) × ℕ
  unfolding place
  filter_loop zero i write_idx detections = (detections, write_idx)
  filter_loop (suc k) i write_idx detections = elim (get_elem? detections i) [
    | none ↦ (detections, write_idx)
    | some d ↦
        filter_loop k (i + 1) (if is_person d then write_idx + 1 else write_idx)
          (if is_person d then place detections write_idx i d else detections)
  ]

  unfoldable pub filter_persons : List (Detection F) → ℕ → List (Detection F) × ℕ
  unfolding filter_loop
  filter_persons detections count = filter_loop count 0 0 detections

-- A 64-bit number of microseconds as milliseconds in an `int`.
abbrev pub to_ms : ℕ → ℤ
to_ms us = let w = us / 1000 % 2 ^ 32 in if ltb w (2 ^ 31) then pos w else negsuc (2 ^ 32 - w - 1)

-- What the clock shows: at the start and the end of the run, in microseconds, and afterwards in
-- nanoseconds.
pub record RunClock : Type 0 where
  pub start_us : ℕ
  pub end_us : ℕ
  pub after_ns : ℕ

module _ {F : Type 0} (fl : FloatOps F) where
  open fl use {literal, of_nat, divide, at_most}

  -- The stub writes one person in the centre, unless the threshold is above 0.8.
  unfoldable pub yolo_postprocess : List (Detection F) → ℕ → F → List (Detection F) × ℕ
  yolo_postprocess detections max_detections conf_threshold =
      if ltb 0 max_detections && at_most conf_threshold (literal 8 10)
      then (
        set detections 0 (record {
          track_id = pos 0;
          class_id = pos yolo_class_person;
          confidence = literal 85 100;
          bbox_x = literal 1 2;
          bbox_y = literal 1 2;
          bbox_width = literal 2 10;
          bbox_height = literal 4 10;
          azimuth_deg = literal 0 1;
          elevation_deg = literal 0 1;
        }),
        1,
      )
      else (detections, 0)

  -- The two angles of a detection, from the centre of its box.
  unfoldable pub with_angles : NpuConfig F → Detection F → Detection F
  with_angles c d = record d {
    azimuth_deg = isp_calculate_azimuth fl d.bbox_x c.horizontal_fov_deg;
    elevation_deg = isp_calculate_elevation fl d.bbox_y c.vertical_fov_deg;
  }

  pub angles_loop : NpuConfig F → ℕ → ℕ → List (Detection F) → List (Detection F)
  angles_loop c zero i detections = detections
  angles_loop c (suc k) i detections = angles_loop c k (i + 1) (elim (get_elem? detections i) [
    | none ↦ detections
    | some d ↦ set detections i (with_angles c d)
  ])

  -- The detections that a run leaves in the array, and their number.
  unfoldable pub detect : NpuConfig F → List (Detection F) → List (Detection F) × ℕ
  unfolding angles_loop
  detect c detections =
      let (found, count) = yolo_postprocess detections npu_max_detections c.confidence_threshold in
      let angled = angles_loop c count 0 found in
      if c.person_only then filter_persons angled count else (angled, count)

  finish_run : RunClock → NpuResult F → Npu F → Npu F × ℤ × Option (NpuResult F)
  finish_run clock result s =
      let spent = (clock.end_us + 2 ^ 64 - clock.start_us) % 2 ^ 64 in
      let (detections, count) = detect s.config result.detections in
      let inferences = (s.status.inference_count + 1) % 2 ^ 64 in
      let total = (s.total_inference_time_us + spent) % 2 ^ 64 in
      (
        record s {
          total_inference_time_us = total;
          status = record s.status {
            inference_count = inferences;
            avg_inference_ms = divide (divide (of_nat total) (of_nat inferences)) (literal 1000 1);
          };
        },
        pos 0,
        some (record {
          detections = detections;
          detection_count = count;
          timestamp_ns = clock.after_ns;
          frame_number = s.status.inference_count % 2 ^ 32;
          inference_time_ms = to_ms spent;
        }),
      )

  -- `present` says that `rgb_data` is not NULL, and `result` is `none` for NULL. The third part of
  -- the result is `*result` after the call.
  unfoldable pub npu_inference :
      Bool → Option (NpuResult F) → RunClock → Npu F → Npu F × ℤ × Option (NpuResult F)
  unfolding finish_run
  npu_inference present none clock s = (s, neg einval, none)
  npu_inference present (some result) clock s =
      if not present
      then (s, neg einval, some result)
      else (if not s.status.initialized || not s.status.model_loaded
          then (s, neg einval, some result)
          else (if is_neg (rknn_run_stub s.ctx)
              then (s, rknn_run_stub s.ctx, some result)
              else finish_run clock result s))

  -- `allocated` is the answer of `malloc` for the converted image.
  unfoldable pub npu_inference_nv12 :
      Bool → Bool → Option (NpuResult F) → RunClock → Npu F → Npu F × ℤ × Option (NpuResult F)
  unfolding npu_inference
  npu_inference_nv12 present allocated result clock s =
      if not present
      then (s, neg einval, result)
      else (if not allocated then (s, neg enomem, result) else npu_inference true result clock s)
