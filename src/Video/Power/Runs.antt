-- ===== src/Video/Power/Runs.antt =====
-- Runs of the operations that bring the video up and down and set its quality (cgo/video.c).
use hardware_os.Base.{
  subst, ℕ, ◌≡◌, refl, inl, inr, Bool, true, false, Option, none, some, List, [], ◌∷◌, ◌++◌,
  if◌then◌else◌, Bool-cases, is_some, arith,
}
use hardware_os.Base.Int.{ℤ, pos, negsuc, is_neg, same_ℤ}
use hardware_os.Base.Fds.{FdEvent, opened, fd_list, Leads, Leads-append, Leads-nothing}
use hardware_os.Base.Float.{FloatOps}
use hardware_os.Base.Os.{Reply, done, failed}
use hardware_os.Video.Control.{
  Stream, absent, ThreadEvent, RestartOs, video_restart_streaming, video_stop_streaming,
}
use hardware_os.Video.Power.{
  SleepOs, ensure_sleep_mode_disabled, detect_sleep_mode, VideoDevice, Outcome, PoolEvent,
  pool_created, pool_destroyed, PowerOs, with_pool, open_control, connect, stop_result, is_refused,
  video_init, after_restart, video_set_quality_factor, jetkvm_video_set_quality_factor, shut_down,
  video_shutdown,
}

pub data VideoOp (F : Type 0) : Type 0 where
  power_up : PowerOs → F → VideoOp F
  power_down : (ℕ → List ThreadEvent) → List ThreadEvent → VideoOp F
  set_quality : RestartOs → F → VideoOp F

fd_list_neg : (fd : ℤ) → is_neg fd ≡ true → fd_list fd ≡ []
fd_list_neg (pos n) h = ground arith
fd_list_neg (negsuc n) h = refl

-- Whether a pool is destroyed.
abbrev pub destroys : List PoolEvent → Bool
destroys [] = false
destroys (pool_destroyed m ∷ rest) = true
destroys (pool_created m ∷ rest) = destroys rest

module _ {F : Type 0} (fl : FloatOps F) where
  unfoldable pub power_step : VideoOp F → VideoDevice F → Outcome F
  power_step (power_up os factor) d = video_init fl os factor d
  power_step (power_down pauses joining) d = video_shutdown pauses joining d
  power_step (set_quality os factor) d = jetkvm_video_set_quality_factor fl os factor d

  -- A call that does not return is the last one.
  unfoldable pub power_steps : List (VideoOp F) → VideoDevice F → Outcome F
  power_steps [] d = stop_result d
  power_steps (op ∷ ops) d =
      let o = power_step op d in
      let rest = power_steps ops o.device in
      if is_some o.ret
      then record rest { fds = o.fds ++ rest.fds; pools = o.pools ++ rest.pools }
      else o

  -- The values before `main`.
  unfoldable pub powered_off : VideoDevice F
  powered_off = record {
    sub_dev_fd = negsuc 0;
    pool = none;
    quality_factor = fl.literal 1 1;
    sleep_mode_available = false;
    should_exit = false;
    stream = record { streaming_flag = false; streaming_stopped = true; thread = absent };
  }

  -- The quality factor is one that is accepted, what a call opens and does not close is the control
  -- device, and what it closes was open.
  abbrev Keeps : ℤ → Outcome F → Type 0
  Keeps fd o =
      (is_refused fl o.device.quality_factor ≡ false)
      × Leads o.fds (fd_list fd) (fd_list o.device.sub_dev_fd)

  sleep-balanced :
      (available : Bool) (os : SleepOs) (fds : List ℕ)
      → Leads (ensure_sleep_mode_disabled available os).fds fds fds
  unfolding ensure_sleep_mode_disabled
  sleep-balanced available os fds = elim os.open_file [
    | done n ↦ record { leaves = ground arith; closes = ground arith }
    | failed e ↦ record { leaves = ground arith; closes = ground arith }
  ]

  with_pool-Keeps :
      (d : VideoDevice F) (fds : List FdEvent) (fd : ℤ) (pool : Option ℕ)
      → is_refused fl d.quality_factor ≡ false
      → Leads fds (fd_list fd) (fd_list d.sub_dev_fd)
      → Keeps fd (with_pool d fds pool)
  unfolding with_pool
  with_pool-Keeps d fds fd none ok h = (ok, h)
  with_pool-Keeps d fds fd (some m) ok h = (ok, h)

  open_control-Keeps :
      (d : VideoDevice F) (fds : List FdEvent) (fd : ℤ) (os : PowerOs) (r : Reply)
      → is_refused fl d.quality_factor ≡ false
      → Leads fds (fd_list fd) []
      → Keeps fd (open_control d fds os r)
  unfolding open_control
  open_control-Keeps d fds fd os (failed e) ok h = (ok, h)
  open_control-Keeps d fds fd os (done n) ok h =
      with_pool-Keeps (record d { sub_dev_fd = pos n }) (fds ++ opened n ∷ []) fd os.create_pool ok
        (Leads-append fds (opened n ∷ []) h (record { leaves = refl; closes = refl }))

  accepted :
      (factor : F)
      → is_refused fl (fl.literal 1 1) ≡ false
      → is_refused fl (if is_refused fl factor then fl.literal 1 1 else factor) ≡ false
  accepted factor one = elim (Bool-cases (is_refused fl factor)) [
    | inl bad ↦ rw bad one
    | inr good ↦ rw good good
  ]

  connect-Keeps :
      (os : PowerOs) (fds : List FdEvent) (d : VideoDevice F)
      → is_refused fl d.quality_factor ≡ false
      → Leads fds (fd_list d.sub_dev_fd) (fd_list d.sub_dev_fd)
      → Keeps d.sub_dev_fd (connect os fds d)
  unfolding connect
  connect-Keeps os fds d ok h = elim (Bool-cases (is_neg d.sub_dev_fd)) [
    | inl shut ↦ rw shut (
        open_control-Keeps d fds d.sub_dev_fd os os.open_subdev ok
          (subst (Leads fds (fd_list d.sub_dev_fd)) (fd_list_neg d.sub_dev_fd shut) h))
    | inr up ↦ rw up (with_pool-Keeps d fds d.sub_dev_fd os.create_pool ok h)
  ]

  init-Keeps :
      (os : PowerOs) (factor : F) (d : VideoDevice F)
      → is_refused fl (fl.literal 1 1) ≡ false
      → Keeps d.sub_dev_fd (video_init fl os factor d)
  unfolding video_init detect_sleep_mode
  init-Keeps os factor d one =
      let balanced = sleep-balanced os.exists os.sleep (fd_list d.sub_dev_fd) in
      elim (Bool-cases (same_ℤ os.sys_init (pos 0))) [
        | inr bad ↦ simp bad (accepted factor one, balanced)
        | inl good ↦ simp good (connect-Keeps os _ _ (accepted factor one) balanced)
      ]

  step-Keeps :
      (op : VideoOp F) (d : VideoDevice F)
      → is_refused fl (fl.literal 1 1) ≡ false
      → is_refused fl d.quality_factor ≡ false
      → Keeps d.sub_dev_fd (power_step op d)
  unfolding power_step video_shutdown jetkvm_video_set_quality_factor video_set_quality_factor
  step-Keeps (power_up os factor) d one ok = init-Keeps os factor d one
  step-Keeps (power_down pauses joining) d one ok = elim (Bool-cases d.should_exit) [
    | inl again ↦ simp again (ok, Leads-nothing _)
    | inr first ↦ simp first (stopped (video_stop_streaming pauses joining d.stream))
  ]
    where
      stopped : (s : Option Stream) → Keeps d.sub_dev_fd (shut_down d s)
      stopped none = (ok, Leads-nothing _)
      stopped (some s) = (ok, Leads-nothing _)
  step-Keeps (set_quality os factor) d one ok = elim (Bool-cases (is_refused fl factor)) [
    | inl bad ↦ rw bad (ok, Leads-nothing _)
    | inr good ↦ rw good (restarted good (video_restart_streaming os d.stream))
  ]
    where
      restarted :
          is_refused fl factor ≡ false
          → (s : Option Stream)
          → Keeps d.sub_dev_fd (after_restart fl (record d { quality_factor = factor }) s)
      restarted good none = (good, Leads-nothing _)
      restarted good (some s) = (good, Leads-nothing _)

  steps-Keeps :
      (ops : List (VideoOp F)) (d : VideoDevice F)
      → is_refused fl (fl.literal 1 1) ≡ false
      → is_refused fl d.quality_factor ≡ false
      → Keeps d.sub_dev_fd (power_steps ops d)
  unfolding power_steps
  steps-Keeps [] d one ok = (ok, Leads-nothing _)
  steps-Keeps (op ∷ ops) d one ok =
      let here = step-Keeps op d one ok in
      joined (power_step op d) (power_steps ops (power_step op d).device) here
        (steps-Keeps ops (power_step op d).device one here.0)
    where
      joined :
          (o rest : Outcome F)
          → Keeps d.sub_dev_fd o
          → Keeps o.device.sub_dev_fd rest
          → Keeps d.sub_dev_fd (
              if is_some o.ret
              then record rest { fds = o.fds ++ rest.fds; pools = o.pools ++ rest.pools }
              else o)
      joined o rest (ok, h) (ok', k) = elim (Bool-cases (is_some o.ret)) [
        | inl back ↦ simp back (ok', Leads-append o.fds rest.fds h k)
        | inr waits ↦ simp waits (ok, h)
      ]

  -- From the start of the program on, over any calls that bring the video up and down and set its
  -- quality: the quality factor is one that is accepted, if 1 is, and the control device is the only
  -- descriptor that the calls have left open, exactly where `sub_dev_fd` holds it, and whatever
  -- they close was open.
  pub power_steps_keep :
      (ops : List (VideoOp F))
      → is_refused fl (fl.literal 1 1) ≡ false
      → let o = power_steps ops powered_off in
        (is_refused fl o.device.quality_factor ≡ false)
        × Leads o.fds [] (fd_list o.device.sub_dev_fd)
  unfolding powered_off
  power_steps_keep ops one = steps-Keeps ops powered_off one one

  -- What a call keeps once the device was shut down.
  abbrev IsShut : Outcome F → Type 0
  IsShut o = (o.device.should_exit ≡ true) × (destroys o.pools ≡ false)
