-- ===== src/Npu/Inference/Run.antt =====
-- What `npu_inference` (cgo/npu.c) delivers, and when it refuses.
use hardware_os.Base.{
  ℕ, zero, suc, ◌+◌, ◌%◌, ◌^◌, ◌≤◌, ◌≡◌, refl, ap, ◌∙◌, sym, ◌⊎◌, ◌↔◌, is_some, inl, inr, Bool,
  true, false, Option, some, List, [], ◌∷◌, arith, if◌then◌else◌, length, length-set, set,
  get_elem?, take, Bool-cases, Option-cases, ltb, ◌&&◌,
}
use hardware_os.Base.Int.{pos, neg}
use hardware_os.Base.Os.{einval}
use hardware_os.Base.Float.{FloatOps}
use hardware_os.Npu.{npu_max_detections, NpuConfig, Npu, Detection, NpuResult}
use hardware_os.Npu.Inference.{
  is_person, yolo_postprocess, with_angles, angles_loop, filter_persons, detect, RunClock,
  npu_inference,
}
use hardware_os.Npu.Inference.Persons.{persons, filter_persons_lem}

module _ {F : Type 0} where
  persons_idem : (ds : List (Detection F)) → persons (persons ds) ≡ persons ds
  persons_idem [] = refl
  persons_idem (d ∷ ds) = elim (Bool-cases (is_person d)) [
    | inl e ↦ rw (e, e) (ap (λ (t : List (Detection F)). d ∷ t) (persons_idem ds))
    | inr e ↦ rw e (persons_idem ds)
  ]

  -- The entries that count are all persons.
  abbrev pub OnlyPersons : List (Detection F) → ℕ → Type 0
  OnlyPersons ds n = persons (take n ds) ≡ take n ds

module _ {F : Type 0} (fl : FloatOps F) where
  length-angles_loop :
      (c : NpuConfig F) (k i : ℕ) (ds : List (Detection F))
      → length (angles_loop fl c k i ds) ≡ length ds
  unfolding angles_loop
  length-angles_loop c zero i ds = refl
  length-angles_loop c (suc k) i ds = elim (Option-cases (get_elem? ds i)) [
    | inl e ↦ rw e (length-angles_loop c k (i + 1) ds)
    | inr (d, e) ↦ rw e (
        length-angles_loop c k (i + 1) (set ds i (with_angles fl c d))
        ∙ length-set ds i (with_angles fl c d))
  ]

  yolo_postprocess_lem :
      (ds : List (Detection F)) (m : ℕ) (t : F)
      → let (out, n) = yolo_postprocess fl ds m t in (n ≤ 1) × (length out ≡ length ds)
  unfolding yolo_postprocess
  yolo_postprocess_lem ds m t = elim (Bool-cases (ltb 0 m && fl.at_most t (fl.literal 8 10))) [
    | inl e ↦ rw e (omega arith, length-set ds 0 _)
    | inr e ↦ rw e (omega arith, refl)
  ]

-- What a run leaves: at most one detection, in an array of the same length, and only persons if
-- these are asked for.
record IsDetected {F : Type 0} (person_only : Bool) (size : ℕ) (r : List (Detection F) × ℕ)
    : Type 0 where
  count : r.1 ≤ 1
  size_kept : length r.0 ≡ size
  only : person_only ≡ true → OnlyPersons r.0 r.1

select_lem :
    {F : Type 0} (person_only : Bool) (ds : List (Detection F)) (n size : ℕ)
    → n ≤ 1
    → 1 ≤ size
    → length ds ≡ size
    → IsDetected person_only size (if person_only then filter_persons ds n else (ds, n))
select_lem true ds n size few room same =
    let (entries, fewer, kept) = filter_persons_lem ds n (omega arith) in
    record {
      count = omega arith;
      size_kept = kept ∙ same;
      only = λ _. ap persons entries ∙ persons_idem (take n ds) ∙ sym entries;
    }
select_lem false ds n size few room same = record { count = few; size_kept = same; only = λ p. cc }

module _ {F : Type 0} (fl : FloatOps F) where
  detect_lem :
      (c : NpuConfig F) (ds : List (Detection F))
      → 1 ≤ length ds
      → IsDetected c.person_only (length ds) (detect fl c ds)
  unfolding detect
  detect_lem c ds room =
      let (few, same) = yolo_postprocess_lem fl ds npu_max_detections c.confidence_threshold in
      let (found, n) = yolo_postprocess fl ds npu_max_detections c.confidence_threshold in
      select_lem c.person_only (angles_loop fl c n 0 found) n (length ds) few room
        (length-angles_loop fl c n 0 found ∙ same)

  -- `npu_inference` succeeds exactly when it is given an image and a result and the processor is
  -- initialized with a model loaded; otherwise it returns -EINVAL and changes nothing.
  npu_inference_ready :
      (present : Bool) (result : Option (NpuResult F)) (clock : RunClock) (s : Npu F)
      → let (t, ret, out) = npu_inference fl present result clock s in
        ((ret ≡ pos 0) ↔ (
          (present ≡ true)
          × (is_some result ≡ true)
          × (s.status.initialized ≡ true)
          × (s.status.model_loaded ≡ true)))
        × ((ret ≡ pos 0) ⊎ ((ret ≡ neg einval) × (t ≡ s) × (out ≡ result)))
  unfolding npu_inference
  npu_inference_ready present result clock s = ground arith

  -- A run that succeeds, given an array of at least one detection, leaves at most one entry that
  -- counts and the array's length; only persons if these alone are asked for; and it counts the run,
  -- whose number before it is the frame's.
  pub npu_inference_sound :
      (result out : NpuResult F) (clock : RunClock) (s t : Npu F)
      → 1 ≤ length result.detections
      → npu_inference fl true (some result) clock s ≡ (t, pos 0, some out)
      → (out.detection_count ≤ 1)
        × (length out.detections ≡ length result.detections)
        × (s.config.person_only ≡ true → OnlyPersons out.detections out.detection_count)
        × (out.frame_number ≡ s.status.inference_count % 2 ^ 32)
        × (t.status.inference_count ≡ (s.status.inference_count + 1) % 2 ^ 64)
  unfolding npu_inference
  npu_inference_sound result out clock s t room h =
      let v = detect_lem s.config result.detections room in
      ground (arith, v.count, v.size_kept, v.only)
