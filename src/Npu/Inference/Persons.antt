-- ===== src/Npu/Inference/Persons.antt =====
-- The compaction of the detections in place is a filter (cgo/npu.c).
use hardware_os.Base.{
  ℕ, zero, suc, ◌+◌, ◌≤◌, ◌<◌, ◌≡◌, refl, sym, ap, ◌∙◌, inl, inr, true, false, some, List, [], ◌∷◌,
  ◌++◌, arith, ◌==◌, ==_iff, if◌then◌else◌, length, set, get_elem?, take, drop, Bool-cases,
  length-set, subst,
}
use mathlib.Core.List.{append_assoc, append-nil}
use native.Mathlib.Numerals.{add-one}
use hardware_os.Npu.{Detection}
use hardware_os.Npu.Inference.{is_person, place, filter_loop, filter_persons}

module _ {ℓ} {A : Type ℓ} where
  set_same : (xs : List A) (i : ℕ) (d : A) → get_elem? xs i ≡ some d → set xs i d ≡ xs
  set_same [] i d h = refl
  set_same (x ∷ xs) zero d h = cc
  set_same (x ∷ xs) (suc i) d h = ap (λ (t : List A). x ∷ t) (set_same xs i d h)

  take-set :
      (xs : List A) (i : ℕ) (d : A)
      → i < length xs
      → take (suc i) (set xs i d) ≡ take i xs ++ d ∷ []
  take-set [] i d h = elim h [ ]
  take-set (x ∷ xs) zero d h = refl
  take-set (x ∷ xs) (suc i) d h = ap (λ (t : List A). x ∷ t) (take-set xs i d (omega arith))

  drop-set : (xs : List A) (w i : ℕ) (d : A) → w ≤ i → drop (suc i) (set xs w d) ≡ drop (suc i) xs
  drop-set [] w i d h = refl
  drop-set (x ∷ xs) zero i d h = refl
  drop-set (x ∷ xs) (suc w) zero d h = absurd (omega arith)
  drop-set (x ∷ xs) (suc w) (suc i) d h = drop-set xs w i d (omega arith)

  elem_at : (xs : List A) (i : ℕ) → i < length xs → (d : A) × (get_elem? xs i ≡ some d)
  elem_at [] i h = elim h [ ]
  elem_at (x ∷ xs) zero h = (x, refl)
  elem_at (x ∷ xs) (suc i) h = elem_at xs i (omega arith)

  take-drop :
      (xs : List A) (i k : ℕ) (d : A)
      → get_elem? xs i ≡ some d
      → take (suc k) (drop i xs) ≡ d ∷ take k (drop (suc i) xs)
  take-drop [] i k d h = cc
  take-drop (x ∷ xs) zero k d h = cc
  take-drop (x ∷ xs) (suc i) k d h = take-drop xs i k d h

-- The persons of a list, in order.
abbrev pub persons : {F : Type 0} → List (Detection F) → List (Detection F)
persons [] = []
persons (d ∷ ds) = if is_person d then d ∷ persons ds else persons ds

module _ {F : Type 0} where
  place-set :
      (ds : List (Detection F)) (w i : ℕ) (d : Detection F)
      → get_elem? ds i ≡ some d
      → place ds w i d ≡ set ds w d
  unfolding place
  place-set ds w i d h = elim (Bool-cases (w == i)) [
    | inl e ↦
        rw e (sym (subst (λ (j : ℕ). set ds j d ≡ ds) (sym ((==_iff w i).0 e)) (set_same ds i d h)))
    | inr e ↦ rw e refl
  ]

  module _ (k i w : ℕ) (ds : List (Detection F)) (d : Detection F)
      (at : get_elem? ds i ≡ some d) where
    filter_loop_keep :
        is_person d ≡ true → filter_loop (suc k) i w ds ≡ filter_loop k (suc i) (suc w) (set ds w d)
    unfolding filter_loop
    filter_loop_keep e = rw (at, filter_loop, e, place-set ds w i d at, add-one, add-one) refl

    filter_loop_skip : is_person d ≡ false → filter_loop (suc k) i w ds ≡ filter_loop k (suc i) w ds
    unfolding filter_loop
    filter_loop_skip e = rw (at, filter_loop, e, add-one) refl

    persons_keep :
        is_person d ≡ true
        → persons (take (suc k) (drop i ds)) ≡ d ∷ persons (take k (drop (suc i) ds))
    persons_keep e = rw (take-drop ds i k d at, e) refl

    persons_skip :
        is_person d ≡ false
        → persons (take (suc k) (drop i ds)) ≡ persons (take k (drop (suc i) ds))
    persons_skip e = rw (take-drop ds i k d at, e) refl

-- The array and the number that are left: the entries that count, and the array's length.
record IsFiltered {F : Type 0} (kept : List (Detection F)) (bound size : ℕ)
    (r : List (Detection F) × ℕ) : Type 0 where
  entries : take r.1 r.0 ≡ kept
  count : r.1 ≤ bound
  size_kept : length r.0 ≡ size

module _ {F : Type 0} where
  filter_loop_lem :
      (k i w : ℕ) (ds : List (Detection F))
      → w ≤ i
      → i + k ≤ length ds
      → IsFiltered
          (take w ds ++ persons (take k (drop i ds)))
          (w + k)
          (length ds)
          (filter_loop k i w ds)
  unfolding filter_loop
  filter_loop_lem zero i w ds h room = record {
    entries = sym (append-nil _);
    count = omega arith;
    size_kept = refl;
  }
  filter_loop_lem (suc k) i w ds h room =
      let (d, at) = elem_at ds i (omega arith) in
      elim (Bool-cases (is_person d)) [
        | inl e ↦
            let ih =
              filter_loop_lem k (suc i) (suc w) (set ds w d) (omega arith)
                (omega (arith, length-set ds w d)) in
            rw (filter_loop_keep k i w ds d at e, persons_keep k i w ds d at e)
              (record {
                entries =
                    ih.entries
                    ∙ rw (take-set ds w d (omega arith), drop-set ds w i d h, append_assoc) refl;
                count = omega (arith, ih.count);
                size_kept = ih.size_kept ∙ length-set ds w d;
              })
        | inr e ↦
            let ih = filter_loop_lem k (suc i) w ds (omega arith) (omega arith) in
            rw (filter_loop_skip k i w ds d at e, persons_skip k i w ds d at e)
              (record {
                entries = ih.entries;
                count = omega (arith, ih.count);
                size_kept = ih.size_kept;
              })
      ]

  -- Of the first `count` entries of an array that has as many, `person_only` leaves the persons, in
  -- order, as the entries that count; the array keeps its length.
  pub filter_persons_lem :
      (ds : List (Detection F)) (count : ℕ)
      → count ≤ length ds
      → let (out, n) = filter_persons ds count in
        (take n out ≡ persons (take count ds)) × (n ≤ count) × (length out ≡ length ds)
  unfolding filter_persons
  filter_persons_lem ds count room =
      let v = filter_loop_lem count 0 0 ds (omega arith) (omega arith) in
      (v.entries, omega (arith, v.count), v.size_kept)
