-- ===== src/Npu/Classes.antt =====
-- The names of the classes of objects: `npu_get_class_name` of cgo/npu.c.
use hardware_os.Base.{
  ℕ, zero, suc, ◌<◌, ◌≡◌, ◌≢◌, inl, inr, refl, ap, sym, ◌∙◌, Bool, true, false, not, ◌&&◌, ◌||◌,
  List, [], ◌∷◌, if◌then◌else◌, length, get_or, ltb, Bool-cases, arith,
}
use hardware_os.Base.Int.{ℤ, pos, negsuc}
use text.Mathlib.Text.{◌==◌}
use text.Mathlib.TextEquality.{eq_iff}
use Prim.Native.String.{String}

abbrev pub coco_classes : List String
coco_classes =
    "person" ∷ "bicycle" ∷ "car" ∷ "motorcycle" ∷ "airplane" ∷ "bus" ∷ "train" ∷ "truck" ∷ "boat"
    ∷ "traffic light" ∷ "fire hydrant" ∷ "stop sign" ∷ "parking meter" ∷ "bench" ∷ "bird" ∷ "cat"
    ∷ "dog" ∷ "horse" ∷ "sheep" ∷ "cow" ∷ "elephant" ∷ "bear" ∷ "zebra" ∷ "giraffe" ∷ "backpack"
    ∷ "umbrella" ∷ "handbag" ∷ "tie" ∷ "suitcase" ∷ "frisbee" ∷ "skis" ∷ "snowboard" ∷ "sports ball"
    ∷ "kite" ∷ "baseball bat" ∷ "baseball glove" ∷ "skateboard" ∷ "surfboard" ∷ "tennis racket"
    ∷ "bottle" ∷ "wine glass" ∷ "cup" ∷ "fork" ∷ "knife" ∷ "spoon" ∷ "bowl" ∷ "banana" ∷ "apple"
    ∷ "sandwich" ∷ "orange" ∷ "broccoli" ∷ "carrot" ∷ "hot dog" ∷ "pizza" ∷ "donut" ∷ "cake"
    ∷ "chair" ∷ "couch" ∷ "potted plant" ∷ "bed" ∷ "dining table" ∷ "toilet" ∷ "tv" ∷ "laptop"
    ∷ "mouse" ∷ "remote" ∷ "keyboard" ∷ "cell phone" ∷ "microwave" ∷ "oven" ∷ "toaster" ∷ "sink"
    ∷ "refrigerator" ∷ "book" ∷ "clock" ∷ "vase" ∷ "scissors" ∷ "teddy bear" ∷ "hair drier"
    ∷ "toothbrush" ∷ []

abbrev pub num_coco_classes : ℕ
num_coco_classes = 80

unfoldable pub npu_get_class_name : ℤ → String
npu_get_class_name (negsuc n) = "unknown"
npu_get_class_name (pos n) =
    if not (ltb n num_coco_classes) then "unknown" else get_or coco_classes n ""

contains : String → List String → Bool
contains s [] = false
contains s (x ∷ xs) = s == x || contains s xs

distinct : List String → Bool
unfolding contains
distinct [] = true
distinct (x ∷ xs) = not (contains x xs) && distinct xs

contains-get_or : (xs : List String) (i : ℕ) → i < length xs → contains (get_or xs i "") xs ≡ true
unfolding contains
contains-get_or [] i h = elim h [ ]
contains-get_or (x ∷ xs) zero h = rw ((eq_iff x x).1 refl) refl
contains-get_or (x ∷ xs) (suc i) h = ground (arith, contains-get_or xs i (omega arith))

-- The first name does not come again.
head_apart :
    (x : String) (xs : List String) (i : ℕ)
    → distinct (x ∷ xs) ≡ true
    → i < length xs
    → x ≢ get_or xs i ""
unfolding distinct
head_apart x xs i apart h e =
    let again : contains x xs ≡ true = rw e (contains-get_or xs i h) in cc (rw again at apart)

distinct-get_or :
    (xs : List String) (i j : ℕ)
    → distinct xs ≡ true
    → i < length xs
    → j < length xs
    → get_or xs i "" ≡ get_or xs j ""
    → i ≡ j
unfolding distinct
distinct-get_or [] i j apart h k e = elim h [ ]
distinct-get_or (x ∷ xs) zero zero apart h k e = refl
distinct-get_or (x ∷ xs) zero (suc j) apart h k e = absurd (head_apart x xs j apart (omega arith) e)
distinct-get_or (x ∷ xs) (suc i) zero apart h k e =
    absurd (head_apart x xs i apart (omega arith) (sym e))
distinct-get_or (x ∷ xs) (suc i) (suc j) apart h k e =
    ap suc (distinct-get_or xs i j (ground arith) (omega arith) (omega arith) e)

names_apart : distinct ("unknown" ∷ coco_classes) ≡ true
unfolding distinct contains
names_apart = refl

-- The index of a class in the table with "unknown" before it.
index : ℤ → ℕ
index (negsuc n) = 0
index (pos n) = if not (ltb n num_coco_classes) then 0 else suc n

name_at :
    (c : ℤ)
    → (npu_get_class_name c ≡ get_or ("unknown" ∷ coco_classes) (index c) "") × (index c < 81)
unfolding npu_get_class_name index
name_at (negsuc n) = (refl, omega arith)
name_at (pos n) = elim (Bool-cases (ltb n 80)) [
  | inl known ↦ rw known (refl, ground arith)
  | inr other ↦ rw other (refl, omega arith)
]

-- The name of a class of the table is the name of no other number: neither of another class, nor of a
-- number outside the table.
npu_get_class_name_distinct :
    (n : ℕ) (c : ℤ)
    → n < num_coco_classes
    → npu_get_class_name c ≡ npu_get_class_name (pos n)
    → c ≡ pos n
unfolding index
npu_get_class_name_distinct n c h e = same c (
    distinct-get_or ("unknown" ∷ coco_classes) (index c) (index (pos n)) names_apart (name_at c).1
      (name_at (pos n)).1 (sym (name_at c).0 ∙ e ∙ (name_at (pos n)).0))
  where
    same : (c : ℤ) → index c ≡ index (pos n) → c ≡ pos n
    same (negsuc k) e = ground arith
    same (pos k) e = ground arith
