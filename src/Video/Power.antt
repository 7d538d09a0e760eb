-- ===== src/Video/Power.antt =====
-- Bringing the video up and down and setting its quality: `video_init`, `video_shutdown`, the sleep
-- mode of the input and the quality factor, of cgo/video.c and cgo/ctrl.c. What the system and the
-- media library answer is an argument. Left out are the call of `shutdown` on the control device,
-- which closes no descriptor, the destruction of a mutex, and the creation of the thread that follows
-- the format, whose result is not looked at. That thread (Video/Detect) closes the control device when
-- it ends; this is none of the calls here.
pub mod Runs
use hardware_os.Base.{
  ℕ, ◌==◌, Bool, true, false, not, ◌||◌, Option, none, some, List, [], ◌∷◌, ◌++◌, if◌then◌else◌,
}
use hardware_os.Base.Int.{ℤ, pos, negsuc, is_neg, same_ℤ}
use hardware_os.Base.Fds.{FdEvent, opened, closed, open_fd}
use hardware_os.Base.Float.{FloatOps}
use hardware_os.Base.Os.{Reply, done, failed, fd_of, errno_of}
use hardware_os.Video.Control.{
  Stream, ThreadEvent, video_stop_streaming, video_restart_streaming, RestartOs,
}

-- Opening the file of the sleep mode, and the character that is read from it.
pub record SleepOs : Type 0 where
  pub open_file : Reply
  pub mode : ℕ

-- What was opened and closed, and whether "0" was written.
pub record Slept : Type 0 where
  pub fds : List FdEvent
  pub written : Bool

read_mode : ℕ → Reply → Slept
read_mode mode (failed e) = record { fds = []; written = false }
read_mode mode (done n) = record { fds = opened n ∷ closed n ∷ []; written = not (mode == b'0') }

-- `available` is `sleep_mode_available`.
unfoldable pub ensure_sleep_mode_disabled : Bool → SleepOs → Slept
unfolding read_mode
ensure_sleep_mode_disabled available os =
    if not available then record { fds = []; written = false } else read_mode os.mode os.open_file

-- `exists`: `access` finds the file. The result is `sleep_mode_available` after the call.
unfoldable pub detect_sleep_mode : Bool → SleepOs → Bool × Slept
unfolding ensure_sleep_mode_disabled
detect_sleep_mode exists os = (exists, ensure_sleep_mode_disabled exists os)

-- `pool` is `memPool`, `none` for MB_INVALID_POOLID.
pub record VideoDevice (F : Type 0) : Type 0 where
  pub sub_dev_fd : ℤ
  pub pool : Option ℕ
  pub quality_factor : F
  pub sleep_mode_available : Bool
  pub should_exit : Bool
  pub stream : Stream

pub data PoolEvent : Type 0 where
  pool_created : ℕ → PoolEvent
  pool_destroyed : ℕ → PoolEvent

-- The device after a call, what was opened and closed, and the result; it is `none` where the call
-- waits for a thread that does not end.
pub record Outcome (F : Type 0) : Type 0 where
  pub device : VideoDevice F
  pub fds : List FdEvent
  pub pools : List PoolEvent
  pub ret : Option ℤ

-- `exists` and `sleep` are for the sleep mode, then the answers of RK_MPI_SYS_Init, of `open` on the
-- control device and of RK_MPI_MB_CreatePool.
pub record PowerOs : Type 0 where
  pub exists : Bool
  pub sleep : SleepOs
  pub sys_init : ℤ
  pub open_subdev : Reply
  pub create_pool : Option ℕ

with_pool : {F : Type 0} → VideoDevice F → List FdEvent → Option ℕ → Outcome F
with_pool d fds none = record {
  device = record d { pool = none };
  fds = fds;
  pools = [];
  ret = some (negsuc 0);
}
with_pool d fds (some m) = record {
  device = record d { pool = some m };
  fds = fds;
  pools = pool_created m ∷ [];
  ret = some (pos 0);
}

open_control : {F : Type 0} → VideoDevice F → List FdEvent → PowerOs → Reply → Outcome F
unfolding with_pool
open_control d fds os (failed e) = record {
  device = record d { sub_dev_fd = negsuc 0 };
  fds = fds;
  pools = [];
  ret = some (pos (errno_of (failed e)));
}
open_control d fds os (done n) =
    with_pool (record d { sub_dev_fd = pos n }) (fds ++ opened n ∷ []) os.create_pool

-- The control device is opened if it is not, and the pool is created.
connect : {F : Type 0} → PowerOs → List FdEvent → VideoDevice F → Outcome F
unfolding open_control with_pool
connect os fds d =
    if is_neg d.sub_dev_fd
    then open_control d fds os os.open_subdev
    else with_pool d fds os.create_pool

abbrev stop_result : {F : Type 0} → VideoDevice F → Outcome F
stop_result d = record { device = d; fds = []; pools = []; ret = some (pos 0) }

abbrev waiting : {F : Type 0} → VideoDevice F → Outcome F
waiting d = record { device = d; fds = []; pools = []; ret = none }

abbrev pub destroy_pool : Option ℕ → List PoolEvent
destroy_pool none = []
destroy_pool (some m) = pool_destroyed m ∷ []

module _ {F : Type 0} (fl : FloatOps F) where
  -- `factor <= 0 || factor > 1`
  unfoldable pub is_refused : F → Bool
  is_refused factor = fl.at_most factor (fl.literal 0 1) || fl.less (fl.literal 1 1) factor

  -- RK_FAILURE is -1, RK_SUCCESS is 0.
  unfoldable pub video_init : PowerOs → F → VideoDevice F → Outcome F
  unfolding detect_sleep_mode is_refused connect
  video_init os factor before =
      let (available, slept) = detect_sleep_mode os.exists os.sleep in
      let d = record before {
        sleep_mode_available = available;
        quality_factor = if is_refused factor then fl.literal 1 1 else factor;
      } in
      if not (same_ℤ os.sys_init (pos 0))
      then record { device = d; fds = slept.fds; pools = []; ret = some (negsuc 0) }
      else connect os slept.fds d

  after_restart : VideoDevice F → Option Stream → Outcome F
  after_restart d none = waiting d
  after_restart d (some s) = stop_result (record d { stream = s })

  unfoldable pub video_set_quality_factor : RestartOs → F → VideoDevice F → Outcome F
  unfolding after_restart
  video_set_quality_factor os factor d =
      after_restart (record d { quality_factor = factor }) (video_restart_streaming os d.stream)

  unfoldable pub jetkvm_video_set_quality_factor : RestartOs → F → VideoDevice F → Outcome F
  unfolding is_refused video_set_quality_factor
  jetkvm_video_set_quality_factor os factor d =
      if is_refused factor
      then record { device = d; fds = []; pools = []; ret = some (negsuc 0) }
      else video_set_quality_factor os factor d

shut_down : {F : Type 0} → VideoDevice F → Option Stream → Outcome F
shut_down d none = waiting d
shut_down d (some s) = record {
  device = record d { stream = s; should_exit = true };
  fds = [];
  pools = destroy_pool d.pool;
  ret = some (pos 0);
}

-- It has no result: `some (pos 0)` says that it has returned. `pauses` and `joining` are the events of
-- the streaming thread while it is stopped.
unfoldable pub video_shutdown :
    {F : Type 0} → (ℕ → List ThreadEvent) → List ThreadEvent → VideoDevice F → Outcome F
unfolding shut_down
video_shutdown pauses joining d =
    if d.should_exit
    then stop_result d
    else shut_down d (video_stop_streaming pauses joining d.stream)
