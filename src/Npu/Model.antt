-- ===== src/Npu/Model.antt =====
-- Models and buffers of the neural processor (cgo/npu.c): what holds between two operations, and
-- when a model is loaded.
use hardware_os.Base.{
  ℕ, ◌≡◌, ◌↔◌, Bool, true, false, not, Option, List, arith, is_some, if◌then◌else◌,
}
use hardware_os.Base.Int.{pos, is_neg}
use hardware_os.Base.Os.{is_failed}
use hardware_os.Base.Float.{FloatOps}
use hardware_os.Npu.{
  NpuConfig, Npu, NpuResult, ModelFile, npu_load_model, npu_unload_model, npu_shutdown, npu_init,
  npu_set_confidence_threshold, npu_set_nms_threshold,
}
use hardware_os.Npu.Inference.{RunClock, npu_inference}

-- The operations that may change the state, with their arguments.
pub data NpuOp (F : Type 0) : Type 0 where
  init : Option (NpuConfig F) → Bool → Bool → ModelFile → NpuOp F
  load_model : Option (List ℕ) → ModelFile → NpuOp F
  unload_model : NpuOp F
  shutdown : NpuOp F
  inference : Bool → Option (NpuResult F) → RunClock → NpuOp F
  set_confidence_threshold : F → NpuOp F
  set_nms_threshold : F → NpuOp F

-- Between two operations: the context is valid exactly while a model is loaded, a model is loaded
-- only while the processor is initialized, and the two buffers are there exactly then.
pub record IsSound {F : Type 0} (s : Npu F) : Type 0 where
  pub context : s.ctx_valid ≡ s.status.model_loaded
  pub loaded_initialized : s.status.model_loaded ≡ true → s.status.initialized ≡ true
  pub input : s.input_buffer ≡ s.status.initialized
  pub output : s.output_buffer ≡ s.status.initialized

module _ {F : Type 0} where
  load-IsSound :
      (path : Option (List ℕ)) (file : ModelFile) (s : Npu F)
      → IsSound s
      → IsSound (npu_load_model path file s).0
  unfolding npu_load_model
  load-IsSound path file s v = ground arith

  -- In a sound state, 0 is returned exactly when a path is given, the processor is initialized and the
  -- file opens, fits the memory and is read whole; otherwise a negative number is returned. Without a
  -- path the model stays as it was; with a path a model is loaded after the call exactly when 0 is
  -- returned, so after an error not even the one before is.
  pub npu_load_model_result :
      (path : Option (List ℕ)) (file : ModelFile) (s : Npu F)
      → IsSound s
      → let (t, ret) = npu_load_model path file s in
        ((ret ≡ pos 0) ↔ (
          (is_some path ≡ true)
          × (s.status.initialized ≡ true)
          × (is_failed file.opened ≡ false)
          × (file.allocated ≡ true)
          × (file.read ≡ file.size)))
        × ((ret ≡ pos 0) ↔ (is_neg ret ≡ false))
        × (t.status.model_loaded
            ≡ (if is_some path then not (is_neg ret) else s.status.model_loaded))
  unfolding npu_load_model
  npu_load_model_result path file s v = ground arith

module _ {F : Type 0} (fl : FloatOps F) where
  abbrev pub step : NpuOp F → Npu F → Npu F
  step (init config i o file) s = (npu_init fl config i o file s).0
  step (load_model path file) s = (npu_load_model path file s).0
  step unload_model s = (npu_unload_model s).0
  step shutdown s = npu_shutdown s
  step (inference p r clock) s = (npu_inference fl p r clock s).0
  step (set_confidence_threshold t) s = (npu_set_confidence_threshold fl t s).0
  step (set_nms_threshold t) s = (npu_set_nms_threshold fl t s).0

  -- Every operation, whatever memory, files and the clock answer, keeps the state sound.
  pub step-IsSound : (op : NpuOp F) (s : Npu F) → IsSound s → IsSound (step op s)
  unfolding npu_init npu_load_model npu_unload_model npu_shutdown npu_inference
      npu_set_confidence_threshold npu_set_nms_threshold
  step-IsSound (init config i o file) s v = ground arith
  step-IsSound (load_model path file) s v = load-IsSound path file s v
  step-IsSound unload_model s v = ground arith
  step-IsSound shutdown s v = ground arith
  step-IsSound (inference p r clock) s v = ground arith
  step-IsSound (set_confidence_threshold t) s v = ground arith
  step-IsSound (set_nms_threshold t) s v = ground arith
