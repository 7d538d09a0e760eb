-- ===== src/Base/Fds.antt =====
-- File descriptors: what a run opens and closes, as a log, and what is open after it.
pub mod Balance
use Prim.Native.Nat.{ℕ}
use mathlib.Core.Path.{◌≡◌, refl, ◌∙◌, ap}
use mathlib.Core.List.{List, [], ◌∷◌, ◌++◌}
use mathlib.Core.Logic.{inl, inr}
use mathlib.Core.Bool.{◌&&◌, Bool, true, false}
use hardware_os.Base.Tests.{◌==◌, if◌then◌else◌, Bool-cases}
use hardware_os.Base.Int.{ℤ, pos, negsuc}
use hardware_os.Base.Os.{Reply, done, failed}

pub data FdEvent : Type 0 where
  opened : ℕ → FdEvent
  closed : ℕ → FdEvent

abbrev pub close_fd : ℤ → List FdEvent
close_fd (pos n) = closed n ∷ []
close_fd (negsuc n) = []

abbrev pub open_fd : Reply → List FdEvent
open_fd (done n) = opened n ∷ []
open_fd (failed e) = []

abbrev pub remove : ℕ → List ℕ → List ℕ
remove n [] = []
remove n (m ∷ ms) = if m == n then ms else m ∷ remove n ms

-- The descriptors that are open after a log, given those that were open before it.
abbrev pub open_after : List FdEvent → List ℕ → List ℕ
open_after [] fds = fds
open_after (opened n ∷ log) fds = open_after log (n ∷ fds)
open_after (closed n ∷ log) fds = open_after log (remove n fds)

abbrev pub is_open : ℕ → List ℕ → Bool
is_open n [] = false
is_open n (m ∷ ms) = if m == n then true else is_open n ms

-- Whether each descriptor that a log closes is open at that point.
abbrev pub closes_open : List FdEvent → List ℕ → Bool
closes_open [] fds = true
closes_open (opened n ∷ log) fds = closes_open log (n ∷ fds)
closes_open (closed n ∷ log) fds = is_open n fds && closes_open log (remove n fds)

-- The descriptor that an `int` stands for.
abbrev pub fd_list : ℤ → List ℕ
fd_list (pos n) = n ∷ []
fd_list (negsuc n) = []

pub open_after-append :
    (xs ys : List FdEvent) (fds : List ℕ)
    → open_after (xs ++ ys) fds ≡ open_after ys (open_after xs fds)
open_after-append [] ys fds = refl
open_after-append (opened n ∷ xs) ys fds = open_after-append xs ys (n ∷ fds)
open_after-append (closed n ∷ xs) ys fds = open_after-append xs ys (remove n fds)

pub closes_open-append :
    (xs ys : List FdEvent) (fds : List ℕ)
    → closes_open xs fds ≡ true
    → closes_open ys (open_after xs fds) ≡ true
    → closes_open (xs ++ ys) fds ≡ true
closes_open-append [] ys fds h k = k
closes_open-append (opened n ∷ xs) ys fds h k = closes_open-append xs ys (n ∷ fds) h k
closes_open-append (closed n ∷ xs) ys fds h k = elim (Bool-cases (is_open n fds)) [
  | inl there ↦ simp there (closes_open-append xs ys (remove n fds) (simp there at h) k)
  | inr gone ↦ cc
]

-- A log leads from what is open before it to what is open after it, and closes only what is open.
pub record Leads (log : List FdEvent) (before after : List ℕ) : Type 0 where
  pub leaves : open_after log before ≡ after
  pub closes : closes_open log before ≡ true

pub Leads-append :
    (xs ys : List FdEvent) {before between after : List ℕ}
    → Leads xs before between
    → Leads ys between after
    → Leads (xs ++ ys) before after
Leads-append xs ys {before} h k = record {
  leaves = open_after-append xs ys before ∙ ap (open_after ys) h.leaves ∙ k.leaves;
  closes = closes_open-append xs ys before h.closes (rw h.leaves k.closes);
}

pub Leads-nothing : (fds : List ℕ) → Leads [] fds fds
Leads-nothing fds = record { leaves = refl; closes = refl }
