-- ===== src/Npu.antt =====
-- The neural processor: targets/rv1106/native/cgo/npu.c and npu.h. `g_npu` is a record; the
-- contents of its two buffers, which nothing reads, are left out, and a pointer is whether it is
-- set. The runtime of the vendor is stubbed in the source, and so it is here.
pub mod Classes
pub mod Inference
pub mod Model
pub mod Color
use hardware_os.Base.{
  ℕ, zero, suc, ◌+◌, ◌-◌, ◌*◌, ◌/◌, ◌%◌, ◌^◌, Bool, true, false, not, ◌&&◌, ◌||◌, Option, none,
  some, List, [], ◌∷◌, ◌++◌, ltb, ◌==◌, if◌then◌else◌, drop, length, set, get_or, get_elem?,
  replicate, map,
}
use hardware_os.Base.Int.{ℤ, pos, negsuc, neg, is_neg}
use hardware_os.Base.Os.{Reply, done, failed, neg_errno, is_failed, einval, enomem, eio}
use hardware_os.Base.CString.{c_string, strncpy, strcpy}
use hardware_os.Base.Float.{FloatOps}

pub record NpuConfig (F : Type 0) : Type 0 where
  pub model_path : List ℕ  -- char[256]
  pub confidence_threshold : F
  pub nms_threshold : F
  pub horizontal_fov_deg : F
  pub vertical_fov_deg : F
  pub person_only : Bool

pub record NpuStatus (F : Type 0) : Type 0 where
  pub initialized : Bool
  pub model_loaded : Bool
  pub model_path : List ℕ  -- char[256]
  pub input_width : ℕ
  pub input_height : ℕ
  pub num_outputs : ℕ
  pub inference_count : ℕ  -- uint64_t
  pub avg_inference_ms : F

pub record Npu (F : Type 0) : Type 0 where
  pub ctx : ℕ
  pub ctx_valid : Bool
  pub config : NpuConfig F
  pub status : NpuStatus F
  pub input_buffer : Bool
  pub output_buffer : Bool
  pub total_inference_time_us : ℕ  -- uint64_t

pub record Detection (F : Type 0) : Type 0 where
  pub track_id : ℤ
  pub class_id : ℤ
  pub confidence : F
  pub bbox_x : F
  pub bbox_y : F
  pub bbox_width : F
  pub bbox_height : F
  pub azimuth_deg : F
  pub elevation_deg : F

-- `detections` is the whole array, of which `detection_count` entries count.
pub record NpuResult (F : Type 0) : Type 0 where
  pub detections : List (Detection F)
  pub detection_count : ℕ
  pub timestamp_ns : ℕ
  pub frame_number : ℕ
  pub inference_time_ms : ℤ

abbrev pub npu_input_width : ℕ
npu_input_width = 640

abbrev pub npu_input_height : ℕ
npu_input_height = 640

abbrev pub npu_max_detections : ℕ
npu_max_detections = 100

-- "/userdata/models/yolov8n.rknn"
abbrev pub npu_default_model_path : List ℕ
npu_default_model_path =
    b'/' ∷ b'u' ∷ b's' ∷ b'e' ∷ b'r' ∷ b'd' ∷ b'a' ∷ b't' ∷ b'a' ∷ b'/' ∷ b'm' ∷ b'o' ∷ b'd' ∷ b'e'
    ∷ b'l' ∷ b's' ∷ b'/' ∷ b'y' ∷ b'o' ∷ b'l' ∷ b'o' ∷ b'v' ∷ b'8' ∷ b'n' ∷ b'.' ∷ b'r' ∷ b'k'
    ∷ b'n' ∷ b'n' ∷ []

-- The stub of the runtime's initialization: the context, and 0.
abbrev pub rknn_init_stub : ℕ × ℤ
rknn_init_stub = (1, pos 0)

abbrev pub rknn_run_stub : ℕ → ℤ
rknn_run_stub ctx = pos 0

-- What the file system and `malloc` answer while a model is read: `opened` is the answer of
-- `fopen`, `read` the number of bytes that `fread` delivers.
pub record ModelFile : Type 0 where
  pub opened : Reply
  pub size : ℕ
  pub allocated : Bool
  pub read : ℕ

module _ {F : Type 0} where
  -- The previous model is given up before the new one is looked at.
  unload_previous : Npu F → Npu F
  unload_previous s =
      if s.ctx_valid
      then record s { ctx_valid = false; status = record s.status { model_loaded = false } }
      else s

  install : List ℕ → Npu F → Npu F × ℤ
  install model_path s =
      let (ctx, ret) = rknn_init_stub in
      let t = record s { ctx = ctx } in
      if is_neg ret then (t, ret) else (
        record t {
          ctx_valid = true;
          status = record t.status {
            model_loaded = true;
            model_path = strncpy 255 model_path ++ drop 255 t.status.model_path;
            num_outputs = 3;
          };
        },
        pos 0,
      )

  read_model : List ℕ → ModelFile → Npu F → Npu F × ℤ
  unfolding install
  read_model model_path file s =
      if is_failed file.opened
      then (s, neg_errno file.opened)
      else (if not file.allocated
          then (s, neg enomem)
          else (if not (file.read == file.size) then (s, neg eio) else install model_path s))

  unfoldable pub npu_load_model : Option (List ℕ) → ModelFile → Npu F → Npu F × ℤ
  unfolding unload_previous read_model
  npu_load_model none file s = (s, neg einval)
  npu_load_model (some model_path) file s =
      if not s.status.initialized
      then (s, neg einval)
      else read_model model_path file (unload_previous s)

  unfoldable pub npu_unload_model : Npu F → Npu F × ℤ
  npu_unload_model s = (
    record s {
      ctx_valid = false;
      status = record s.status { model_loaded = false; model_path = replicate 256 0 };
    },
    pos 0,
  )

  unfoldable pub npu_shutdown : Npu F → Npu F
  npu_shutdown s = if not s.status.initialized then s else record s {
    ctx_valid = false;
    input_buffer = false;
    output_buffer = false;
    status = record s.status { initialized = false; model_loaded = false };
  }

module _ {F : Type 0} (fl : FloatOps F) where
  open fl use {literal, of_nat, divide, less, at_most}

  abbrev pub npu_config_of : NpuConfig F → Option (NpuConfig F) → NpuConfig F
  npu_config_of old (some c) = c
  npu_config_of old none = record {
    model_path = strcpy old.model_path npu_default_model_path;
    confidence_threshold = literal 1 2;
    nms_threshold = literal 45 100;
    horizontal_fov_deg = literal 120 1;
    vertical_fov_deg = literal 90 1;
    person_only = false;
  }

  -- The default model, if the configuration names one. A failure is only logged.
  load_default : ModelFile → Npu F → Npu F
  load_default file s =
      if length (c_string s.config.model_path) == 0
      then s
      else (npu_load_model (some (c_string s.config.model_path)) file s).0

  -- `input_ok` and `output_ok` are the answers of `malloc`.
  unfoldable pub npu_init : Option (NpuConfig F) → Bool → Bool → ModelFile → Npu F → Npu F × ℤ
  unfolding load_default npu_load_model
  npu_init config input_ok output_ok file s =
      if s.status.initialized
      then (s, pos 0)
      else (let t = record s { config = npu_config_of s.config config; input_buffer = input_ok } in
          if not input_ok
          then (t, neg enomem)
          else (if not output_ok
              then (record t { input_buffer = false; output_buffer = false }, neg enomem)
              else (
                load_default file (record t {
                  output_buffer = true;
                  status = record t.status {
                    initialized = true;
                    model_loaded = false;
                    input_width = npu_input_width;
                    input_height = npu_input_height;
                    inference_count = 0;
                    avg_inference_ms = literal 0 1;
                  };
                }),
                pos 0,
              )))

  outside : F → Bool
  outside threshold = less threshold (literal 0 1) || less (literal 1 1) threshold

  unfoldable pub npu_set_confidence_threshold : F → Npu F → Npu F × ℤ
  unfolding outside
  npu_set_confidence_threshold threshold s =
      if outside threshold
      then (s, neg einval)
      else (record s { config = record s.config { confidence_threshold = threshold } }, pos 0)

  unfoldable pub npu_set_nms_threshold : F → Npu F → Npu F × ℤ
  unfolding outside
  npu_set_nms_threshold threshold s =
      if outside threshold
      then (s, neg einval)
      else (record s { config = record s.config { nms_threshold = threshold } }, pos 0)
