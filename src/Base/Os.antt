-- ===== src/Base/Os.antt =====
-- What a system call answers, and the error numbers of the program.
use Prim.Native.Nat.{ℕ, suc}
use mathlib.Core.Bool.{Bool, true, false}
use hardware_os.Base.Int.{ℤ, pos, negsuc}

-- `failed e` is the return value -1 with `errno` set to e + 1: a failed call never sets it to 0.
pub data Reply : Type 0 where
  done : ℕ → Reply
  failed : ℕ → Reply

abbrev pub is_failed : Reply → Bool
is_failed (done n) = false
is_failed (failed e) = true

-- The `int` that `open` returns.
abbrev pub fd_of : Reply → ℤ
fd_of (done n) = pos n
fd_of (failed e) = negsuc 0

-- `-errno` after the call.
abbrev pub neg_errno : Reply → ℤ
neg_errno (done n) = pos 0
neg_errno (failed e) = negsuc e

-- `errno` after a call that failed.
abbrev pub errno_of : Reply → ℕ
errno_of (done n) = 0
errno_of (failed e) = suc e

abbrev pub eintr : ℕ
eintr = 4

abbrev pub eio : ℕ
eio = 5

abbrev pub eagain : ℕ
eagain = 11

abbrev pub enomem : ℕ
enomem = 12

abbrev pub einval : ℕ
einval = 22

abbrev pub erange : ℕ
erange = 34

abbrev pub enolck : ℕ
enolck = 37

abbrev pub enolink : ℕ
enolink = 67
