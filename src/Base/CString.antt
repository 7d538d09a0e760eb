-- ===== src/Base/CString.antt =====
-- Character arrays as lists of bytes: the text before the terminator, and `strncpy` into a whole
-- array.
use hardware_os.Base.Tests.{◌==◌, if◌then◌else◌, Bool-cases}
use hardware_os.Base.Lists.{length, set, take, drop, All}
use Prim.Native.Nat.{ℕ, zero, suc, ◌<◌, ◌≤◌}
use Prim.Native.Char.{code}
use Prim.Native.String.{String}
use mathlib.Core.Path.{◌≡◌, refl, ap}
use mathlib.Core.Logic.{inl, inr}
use mathlib.Core.List.{List, [], ◌∷◌, ◌++◌}
use native.Mathlib.Omega.{arith}

-- The bytes of a text in the source.
abbrev pub codes : String → List ℕ
codes String.[] = []
codes (String.◌∷◌ c t) = code c ∷ codes t

-- The text that a character array holds.
abbrev pub c_string : List ℕ → List ℕ
c_string [] = []
c_string (c ∷ cs) = if c == 0 then [] else c ∷ c_string cs

-- `strncpy(dst, src, n)` with n the size of `dst`: the rest is filled with terminators.
abbrev pub strncpy : ℕ → List ℕ → List ℕ
strncpy zero src = []
strncpy (suc n) [] = 0 ∷ strncpy n []
strncpy (suc n) (c ∷ cs) = c ∷ strncpy n cs

-- A text has no terminator inside.
abbrev pub IsText : List ℕ → Type 0
IsText = All (λ c. 0 < c)

pub length-strncpy : (n : ℕ) (src : List ℕ) → length (strncpy n src) ≡ n
length-strncpy zero src = refl
length-strncpy (suc n) [] = ap suc (length-strncpy n [])
length-strncpy (suc n) (c ∷ cs) = ap suc (length-strncpy n cs)

pub c_string-strncpy : (n : ℕ) (src : List ℕ) → IsText src → c_string (strncpy n src) ≡ take n src
c_string-strncpy zero src h = refl
c_string-strncpy (suc n) [] h = refl
c_string-strncpy (suc n) (c ∷ cs) h = ground (arith, c_string-strncpy n cs, h.0)

-- A terminator written at `i` cuts the text there.
pub c_string-set :
    (i : ℕ) (xs : List ℕ) → i < length xs → c_string (set xs i 0) ≡ take i (c_string xs)
c_string-set i [] h = elim h [ ]
c_string-set zero (x ∷ xs) h = refl
c_string-set (suc i) (x ∷ xs) h = elim (Bool-cases (x == 0)) [
  | inl e ↦ rw e refl
  | inr e ↦ rw e (ap (λ (t : List ℕ). x ∷ t) (c_string-set i xs (omega arith)))
]

pub take-take : (m n : ℕ) (xs : List ℕ) → m ≤ n → take m (take n xs) ≡ take m xs
take-take zero n xs h = refl
take-take (suc m) zero xs h = absurd (omega arith)
take-take (suc m) (suc n) [] h = refl
take-take (suc m) (suc n) (x ∷ xs) h = ap (λ (t : List ℕ). x ∷ t) (take-take m n xs (omega arith))

-- `strcpy(dst, src)`: what lies behind the terminator stays.
abbrev pub strcpy : List ℕ → List ℕ → List ℕ
strcpy dst src = src ++ 0 ∷ drop (suc (length src)) dst
