-- ===== src/Tests/Processors.antt =====
-- The image signal processor and the neural processor at concrete inputs (cgo/isp.c and cgo/npu.c).
-- The arithmetic on floats is that of thousandths.
use hardware_os.Base.{
  ◌+◌, ◌*◌, ◌%◌, ◌^◌, ◌≤◌, ◌≡◌, refl, ◌↔◌, true, false, not, none, some, List, [], ◌∷◌, arith,
  length, replicate, take, get_or,
}
use hardware_os.Base.Int.{ℤ, pos, is_neg, ◌*ℤ◌}
use hardware_os.Base.Os.{done}
use hardware_os.Base.Float.{FloatOps, milli}
use hardware_os.Isp.{Isp, IspConfig}
use hardware_os.Isp.Info.{isp_calculate_azimuth, isp_calculate_elevation}
use hardware_os.Isp.Lifecycle as Life
use hardware_os.Npu.{Npu, Detection, NpuResult, ModelFile, npu_load_model}
use hardware_os.Npu.Model as Model
use hardware_os.Npu.Inference.{
  RunClock, detect, yolo_postprocess, with_angles, filter_persons, npu_inference,
}
use hardware_os.Npu.Inference.Persons.{persons, filter_persons_lem}
use hardware_os.Npu.Inference.Run.{OnlyPersons, npu_inference_sound}
use hardware_os.Npu.Color.{nv12_to_rgb, pixel_at}
use hardware_os.Npu.Classes.{npu_get_class_name}
use hardware_os.Npu.Color.Image.{channel, nv12_to_rgb_at}

abbrev isp_config : IspConfig
isp_config = record {
  ldch_enabled = true;
  ldch_level = 255;
  ldch_mesh_path = replicate 256 0;
  hdr_enabled = false;
  noise_reduction = true;
  auto_exposure = true;
  auto_white_balance = true;
}

abbrev pub isp_ready : Isp ℤ
isp_ready = record {
  config = isp_config;
  status = record {
    initialized = true;
    running = false;
    ldch_enabled = true;
    ldch_level = 255;
    current_exposure_time_ms = pos 0;
    current_gain = pos 0;
    current_color_temp_k = pos 0;
  };
  sensor_name = replicate 64 0;
  aiq_available = true;
}

isp_ready-IsConsistent : Life.IsConsistent isp_ready
isp_ready-IsConsistent = record {
  runs_initialized = λ _. refl;
  library_up = refl;
  enabled_reported = λ _. refl;
  level_reported = λ _. refl;
}

abbrev isp_ops : List (Life.IspOp ℤ)
isp_ops = Life.start ∷ Life.shutdown ∷ Life.start ∷ Life.init none none ∷ Life.start ∷ []

run-run_phase_example : Life.run isp_ops isp_ready ≡ Life.run_phase isp_ops (Life.phase isp_ready)
run-run_phase_example = Life.run-run_phase isp_ops isp_ready isp_ready-IsConsistent

-- Whole numbers, where negation is exact.
abbrev whole : FloatOps ℤ
whole = record milli { times = λ a b. a *ℤ b }

abbrev detection : ℤ → Detection ℤ
detection class_id = record {
  track_id = pos 0;
  class_id = class_id;
  confidence = pos 900;
  bbox_x = pos 100;
  bbox_y = pos 100;
  bbox_width = pos 50;
  bbox_height = pos 50;
  azimuth_deg = pos 0;
  elevation_deg = pos 0;
}

-- A car, a person, a dog and a person.
abbrev crowd : List (Detection ℤ)
crowd = detection (pos 2) ∷ detection (pos 0) ∷ detection (pos 16) ∷ detection (pos 0) ∷ []

filter_persons_lem_example :
    (take (filter_persons crowd 4).1 (filter_persons crowd 4).0 ≡ persons (take 4 crowd))
    × ((filter_persons crowd 4).1 ≤ 4)
    × (length (filter_persons crowd 4).0 ≡ length crowd)
filter_persons_lem_example = filter_persons_lem crowd 4 (omega arith)

abbrev pub npu_ready : Npu ℤ
npu_ready = record {
  ctx = 1;
  ctx_valid = true;
  config = record {
    model_path = b'm' ∷ replicate 255 0;
    confidence_threshold = pos 500;
    nms_threshold = pos 450;
    horizontal_fov_deg = pos 120000;
    vertical_fov_deg = pos 90000;
    person_only = true;
  };
  status = record {
    initialized = true;
    model_loaded = true;
    model_path = b'm' ∷ replicate 255 0;
    input_width = 640;
    input_height = 640;
    num_outputs = 1;
    inference_count = 41;
    avg_inference_ms = pos 0;
  };
  input_buffer = true;
  output_buffer = true;
  total_inference_time_us = 0;
}

npu_ready-IsSound : Model.IsSound npu_ready
npu_ready-IsSound = record {
  context = refl;
  loaded_initialized = λ _. refl;
  input = refl;
  output = refl;
}

-- A file that is cut short.
abbrev short_file : ModelFile
short_file = record { opened = done 3; size = 10; allocated = true; read = 9 }

npu_load_model_result_example :
    let (t, ret) = npu_load_model (some (b'n' ∷ [])) short_file npu_ready in
    ((ret ≡ pos 0) ↔ (
      (true ≡ true)
      × (true ≡ true)
      × (false ≡ false)
      × (true ≡ true)
      × (short_file.read ≡ short_file.size)))
    × ((ret ≡ pos 0) ↔ (is_neg ret ≡ false))
    × (t.status.model_loaded ≡ not (is_neg ret))
npu_load_model_result_example =
    Model.npu_load_model_result (some (b'n' ∷ [])) short_file npu_ready npu_ready-IsSound

step-IsSound_example :
    Model.IsSound (Model.step milli (Model.load_model (some (b'n' ∷ [])) short_file) npu_ready)
step-IsSound_example =
    Model.step-IsSound milli (Model.load_model (some (b'n' ∷ [])) short_file) npu_ready
      npu_ready-IsSound

abbrev pub run_clock : RunClock
run_clock = record { start_us = 1000; end_us = 31000; after_ns = 32000000 }

abbrev pub empty_result : NpuResult ℤ
empty_result = record {
  detections = replicate 2 (detection (pos 7));
  detection_count = 0;
  timestamp_ns = 0;
  frame_number = 0;
  inference_time_ms = pos 0;
}

nv12_to_rgb_at_example :
    get_or (nv12_to_rgb (replicate 6 128) 2 2 (replicate 12 0)) ((1 * 2 + 1) * 3 + 2) 0
    ≡ channel (pixel_at (replicate 6 128) 2 2 1 1) 2
nv12_to_rgb_at_example =
    nv12_to_rgb_at (replicate 6 128) (replicate 12 0) 2 2 1 1 2 (omega arith) (omega arith)
      (omega arith) (omega arith)

-- 30 ms of a run that finds a person in the centre.
abbrev found_result : NpuResult ℤ
found_result = record {
  detections =
      record {
        track_id = pos 0;
        class_id = pos 0;
        confidence = pos 850;
        bbox_x = pos 500;
        bbox_y = pos 500;
        bbox_width = pos 200;
        bbox_height = pos 400;
        azimuth_deg = pos 0;
        elevation_deg = pos 0;
      }
      ∷ detection (pos 7)
      ∷ [];
  detection_count = 1;
  timestamp_ns = 32000000;
  frame_number = 41;
  inference_time_ms = pos 30;
}

abbrev npu_after : Npu ℤ
npu_after = record npu_ready {
  total_inference_time_us = 30000;
  status = record npu_ready.status { inference_count = 42; avg_inference_ms = pos 714 };
}

inferred :
    npu_inference milli true (some empty_result) run_clock npu_ready
    ≡ (npu_after, pos 0, some found_result)
unfolding npu_inference detect yolo_postprocess with_angles filter_persons isp_calculate_azimuth
    isp_calculate_elevation
inferred = refl

npu_inference_sound_example :
    (found_result.detection_count ≤ 1)
    × (length found_result.detections ≡ length empty_result.detections)
    × (npu_ready.config.person_only ≡ true
        → OnlyPersons found_result.detections found_result.detection_count)
    × (found_result.frame_number ≡ npu_ready.status.inference_count % 2 ^ 32)
    × (npu_after.status.inference_count ≡ (npu_ready.status.inference_count + 1) % 2 ^ 64)
npu_inference_sound_example =
    npu_inference_sound milli empty_result found_result run_clock npu_ready npu_after (omega arith)
      inferred

-- The constants of npu.h name what they say.
constants_name :
    (npu_get_class_name (pos 0) ≡ "person")
    × (npu_get_class_name (pos 2) ≡ "car")
    × (npu_get_class_name (pos 15) ≡ "cat")
    × (npu_get_class_name (pos 16) ≡ "dog")
unfolding npu_get_class_name
constants_name = (refl, refl, refl, refl)
