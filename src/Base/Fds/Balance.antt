-- ===== src/Base/Fds/Balance.antt =====
-- Logs that open some handles and then close the same ones.
use Prim.Native.Nat.{ℕ, ◌+◌, ◌≤◌}
use mathlib.Core.Path.{◌≡◌, refl, ◌∙◌}
use mathlib.Core.Logic.{inl, inr}
use mathlib.Core.Bool.{true}
use mathlib.Core.List.{List, [], ◌∷◌, ◌++◌, map}
use native.Mathlib.Omega.{arith}
use hardware_os.Base.Tests.{◌==◌, ==_iff, if◌then◌else◌, Bool-cases}
use hardware_os.Base.Lists.{length}
use hardware_os.Base.Fds.{
  opened, closed, remove, is_open, open_after, open_after-append, closes_open, closes_open-append,
}

count : ℕ → List ℕ → ℕ
count n [] = 0
count n (m ∷ ms) = (if m == n then 1 else 0) + count n ms

count-is_open : (n : ℕ) (fds : List ℕ) → 1 ≤ count n fds → is_open n fds ≡ true
unfolding count
count-is_open n [] h = absurd (omega arith)
count-is_open n (m ∷ ms) h = elim (Bool-cases (m == n)) [
  | inl here ↦ rw here refl
  | inr on ↦ rw on (count-is_open n ms (omega (arith, rw on at h)))
]

length-remove :
    (n : ℕ) (fds : List ℕ) → is_open n fds ≡ true → length (remove n fds) + 1 ≡ length fds
length-remove n [] h = cc
length-remove n (m ∷ ms) h = elim (Bool-cases (m == n)) [
  | inl here ↦ rw here (omega arith)
  | inr on ↦ rw on (omega (arith, length-remove n ms (rw on at h)))
]

count-remove :
    (x n : ℕ) (fds : List ℕ)
    → is_open n fds ≡ true
    → (if n == x then 1 else 0) + count x (remove n fds) ≡ count x fds
unfolding count
count-remove x n [] h = cc
count-remove x n (m ∷ ms) h = elim (Bool-cases (m == n)) [
  | inl here ↦ rw (here, (==_iff m n).0 here) refl
  | inr on ↦ rw on (omega (arith, count-remove x n ms (rw on at h)))
]

count-open_after :
    (x : ℕ) (ms fds : List ℕ) → count x (open_after (map opened ms) fds) ≡ count x ms + count x fds
unfolding count
count-open_after x [] fds = omega arith
count-open_after x (m ∷ ms) fds = omega (arith, count-open_after x ms (m ∷ fds))

-- Closing handles that are open, each as often, closes what is open, and leaves the others.
record IsClosing (ms fds : List ℕ) : Type 0 where
  open_then : closes_open (map closed ms) fds ≡ true
  rest : length (open_after (map closed ms) fds) + length ms ≡ length fds

close_all : (ms fds : List ℕ) → ((x : ℕ) → count x ms ≤ count x fds) → IsClosing ms fds
unfolding count
close_all [] fds h = record { open_then = refl; rest = omega arith }
close_all (m ∷ ms) fds h =
    let there = count-is_open m fds (one m (count m ms) (count m fds) (h m)) in
    let later = close_all ms (remove m fds) (λ x. omega (arith, h x, count-remove x m fds there)) in
    record {
      open_then = rw there later.open_then;
      rest = omega (arith, later.rest, length-remove m fds there);
    }
  where
    one : (m a b : ℕ) → (if m == m then 1 else 0) + a ≤ b → 1 ≤ b
    one m a b le = omega (arith, rw ((==_iff m m).1 refl) at le)

length-opened : (ms fds : List ℕ) → length (open_after (map opened ms) fds) ≡ length ms + length fds
length-opened [] fds = omega arith
length-opened (m ∷ ms) fds = omega (arith, length-opened ms (m ∷ fds))

no_length : (xs : List ℕ) (n : ℕ) → length xs + n ≡ n → xs ≡ []
no_length [] n e = refl
no_length (x ∷ xs) n e = absurd (omega arith)

pub opened-closes : (ms fds : List ℕ) → closes_open (map opened ms) fds ≡ true
opened-closes [] fds = refl
opened-closes (m ∷ ms) fds = opened-closes ms (m ∷ fds)

-- What is opened and then closed in the same order was open, and nothing is open after it.
pub opened_then_closed :
    (ms : List ℕ)
    → (closes_open (map opened ms ++ map closed ms) [] ≡ true)
      × (open_after (map opened ms ++ map closed ms) [] ≡ [])
opened_then_closed ms =
    let fds = open_after (map opened ms) [] in
    let ends = close_all ms fds (λ x. omega (arith, count-open_after x ms [])) in
    (
      closes_open-append (map opened ms) (map closed ms) [] (opened-closes ms []) ends.open_then,
      open_after-append (map opened ms) (map closed ms) []
          ∙ no_length _ (length ms) (ends.rest ∙ length-opened ms [] ∙ add_zero (length ms)),
    )
  where
    add_zero : (n : ℕ) → n + 0 ≡ n
    add_zero n = omega arith
