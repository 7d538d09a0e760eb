-- ===== src/Video/Control/Restart.antt =====
-- What a restart does with the stream (cgo/video.c).
use hardware_os.Base.{
  ℕ, zero, suc, ◌≡◌, refl, arith, ap, ◌∙◌, Bool, true, false, some, List, [], ◌∷◌, if◌then◌else◌,
}
use hardware_os.Video.Control.{
  Thread, absent, created, looping, exited, Stream, ThreadEvent, begins, finishes, gives_up,
  thread_step, thread_steps, wait_loop, is_absent, is_exited, join, wait_for_streaming_stopped,
  video_start_streaming, video_stop_streaming, video_get_streaming_status, video_restart_streaming,
  RestartOs, attempts, Detected, detect_turn, timings,
}

-- `streaming_thread` is NULL, or the thread has ended without `set_streaming_stopped(true)`.
abbrev pub gone : Bool → Bool → Stream
gone flag stopped = record { streaming_flag = flag; streaming_stopped = stopped; thread = absent }

abbrev pub gave_up : Bool → Stream
gave_up flag = record { streaming_flag = flag; streaming_stopped = false; thread = exited }

pub thread_steps-gone : (es : List ThreadEvent) (f s : Bool) → thread_steps es (gone f s) ≡ gone f s
unfolding thread_steps thread_step
thread_steps-gone [] f s = refl
thread_steps-gone (e ∷ es) f s = thread_steps-gone es f s

thread_steps-gave_up : (es : List ThreadEvent) (f : Bool) → thread_steps es (gave_up f) ≡ gave_up f
unfolding thread_steps thread_step
thread_steps-gave_up [] f = refl
thread_steps-gave_up (e ∷ es) f = thread_steps-gave_up es f

-- Nothing that the thread can still do ends the wait.
wait_loop-gone :
    (n i : ℕ) (pauses : ℕ → List ThreadEvent) (f : Bool)
    → wait_loop n i pauses (gone f false) ≡ (gone f false, false)
unfolding wait_loop
wait_loop-gone zero i pauses f = refl
wait_loop-gone (suc n) i pauses f =
    rw (thread_steps-gone (pauses i) f false, wait_loop-gone n (suc i) pauses f) refl

wait_loop-gave_up :
    (n i : ℕ) (pauses : ℕ → List ThreadEvent) (f : Bool)
    → wait_loop n i pauses (gave_up f) ≡ (gave_up f, false)
unfolding wait_loop
wait_loop-gave_up zero i pauses f = refl
wait_loop-gave_up (suc n) i pauses f =
    rw (thread_steps-gave_up (pauses i) f, wait_loop-gave_up n (suc i) pauses f) refl

stop-gave_up :
    (pauses : ℕ → List ThreadEvent) (joining : List ThreadEvent) (f : Bool)
    → video_stop_streaming pauses joining (gave_up f) ≡ some (gone false false)
unfolding video_stop_streaming wait_for_streaming_stopped is_exited is_absent
stop-gave_up pauses joining f =
    rw (wait_loop-gave_up attempts 0 pauses false, thread_steps-gave_up joining false) refl

pub restart-gone :
    (os : RestartOs) → video_restart_streaming os (gone false false) ≡ some (gone false false)
unfolding video_restart_streaming video_stop_streaming video_get_streaming_status
    wait_for_streaming_stopped is_absent
restart-gone os = rw (wait_loop-gone attempts 0 os.pauses_after false) refl

restart-gave_up :
    (os : RestartOs) → video_restart_streaming os (gave_up true) ≡ some (gone false false)
unfolding video_restart_streaming video_get_streaming_status wait_for_streaming_stopped
restart-gave_up os =
    rw (stop-gave_up os.pauses os.joining true, wait_loop-gone attempts 0 os.pauses_after false)
      refl

-- Once the streaming thread has returned early, a restart only stops the stream, whatever the system
-- answers, and every restart after it leaves the stream stopped, with a status of 2.
pub video_restart_streaming-gave_up :
    (os : RestartOs)
    → video_restart_streaming os (gave_up true) ≡ some (gone false false)
      × ((later : RestartOs)
          → video_restart_streaming later (gone false false) ≡ some (gone false false))
      × video_get_streaming_status (gone false false) ≡ 2
unfolding video_get_streaming_status
video_restart_streaming-gave_up os = (restart-gave_up os, restart-gone, refl)

abbrev pub never_gives_up : List ThreadEvent → Bool
never_gives_up [] = true
never_gives_up (gives_up ∷ es) = false
never_gives_up (_ ∷ es) = never_gives_up es

-- The thread is there, and `streaming_stopped` says whether its loop is running.
abbrev pub IsSoundAt : Thread → Bool → Type 0
IsSoundAt absent stopped = ⊥
IsSoundAt created stopped = Unit
IsSoundAt looping stopped = stopped ≡ false
IsSoundAt exited stopped = stopped ≡ true

abbrev pub IsSound : Stream → Type 0
IsSound s = IsSoundAt s.thread s.streaming_stopped

abbrev pub at : Thread → Bool → Bool → Stream
at t flag stopped = record { streaming_flag = flag; streaming_stopped = stopped; thread = t }

abbrev Keeps : Bool → Stream → Type 0
Keeps flag s = IsSound s × s.streaming_flag ≡ flag

thread_step-IsSound :
    (e : ThreadEvent) (t : Thread) (f stopped : Bool)
    → never_gives_up (e ∷ []) ≡ true
    → IsSoundAt t stopped
    → Keeps f (thread_step e (at t f stopped))
unfolding thread_step
thread_step-IsSound begins absent f stopped never sound = elim sound [ ]
thread_step-IsSound finishes absent f stopped never sound = elim sound [ ]
thread_step-IsSound begins created f stopped never sound = (refl, refl)
thread_step-IsSound begins looping f stopped never sound = (sound, refl)
thread_step-IsSound begins exited f stopped never sound = (sound, refl)
thread_step-IsSound finishes created f stopped never sound = (sound, refl)
thread_step-IsSound finishes looping f stopped never sound = (refl, refl)
thread_step-IsSound finishes exited f stopped never sound = (sound, refl)
thread_step-IsSound gives_up t f stopped never sound = ground arith

pub thread_steps-IsSound :
    (es : List ThreadEvent) (s : Stream)
    → never_gives_up es ≡ true
    → IsSound s
    → Keeps s.streaming_flag (thread_steps es s)
unfolding thread_steps
thread_steps-IsSound [] s never sound = (sound, refl)
thread_steps-IsSound (begins ∷ es) s never sound =
    let (next, flag) =
      thread_step-IsSound begins s.thread s.streaming_flag s.streaming_stopped refl sound in
    let (last, kept) = thread_steps-IsSound es (thread_step begins s) never next in
    (last, kept ∙ flag)
thread_steps-IsSound (finishes ∷ es) s never sound =
    let (next, flag) =
      thread_step-IsSound finishes s.thread s.streaming_flag s.streaming_stopped refl sound in
    let (last, kept) = thread_steps-IsSound es (thread_step finishes s) never next in
    (last, kept ∙ flag)
thread_steps-IsSound (gives_up ∷ es) s never sound = ground arith

waited :
    (s : Stream) {f : Bool} (rest : Stream × Bool) (b : Bool)
    → Keeps f s
    → Keeps f rest.0
    → Keeps f (if b then (s, true) else rest).0
waited s r true here rest = here
waited s r false here rest = rest

wait_loop-IsSound :
    (n i : ℕ) (pauses : ℕ → List ThreadEvent) (s : Stream)
    → ((j : ℕ) → never_gives_up (pauses j) ≡ true)
    → IsSound s
    → Keeps s.streaming_flag (wait_loop n i pauses s).0
unfolding wait_loop
wait_loop-IsSound zero i pauses s never sound = (sound, refl)
wait_loop-IsSound (suc n) i pauses s never sound =
    let (next, flag) = thread_steps-IsSound (pauses i) s (never i) sound in
    let (last, kept) = wait_loop-IsSound n (suc i) pauses (thread_steps (pauses i) s) never next in
    waited s _ s.streaming_stopped (sound, refl) (last, kept ∙ flag)

-- The streaming thread comes to its end.
thread_steps-ends :
    (t : Thread) (f stopped : Bool)
    → IsSoundAt t stopped
    → thread_steps (begins ∷ finishes ∷ []) (at t f stopped) ≡ at exited f true
unfolding thread_steps thread_step
thread_steps-ends absent f stopped sound = elim sound [ ]
thread_steps-ends created f stopped sound = refl
thread_steps-ends looping f stopped sound = refl
thread_steps-ends exited f stopped sound = ap (λ b. at exited f b) sound

present : (t : Thread) (b : Bool) → IsSoundAt t b → is_absent t ≡ false
unfolding is_absent
present absent b sound = elim sound [ ]
present created b sound = refl
present looping b sound = refl
present exited b sound = refl

join-ends : (s : Stream) → Keeps false s → join (begins ∷ finishes ∷ []) s ≡ some (gone false true)
unfolding join is_exited
join-ends s (sound, off) =
    rw (thread_steps-ends s.thread s.streaming_flag s.streaming_stopped sound, off) refl

-- Without an early return, stopping ends in a stopped stream, once the thread begins and finishes
-- while the join waits, as far as it has not done so before.
video_stop_streaming_stops :
    (pauses : ℕ → List ThreadEvent) (s : Stream)
    → IsSound s
    → ((j : ℕ) → never_gives_up (pauses j) ≡ true)
    → video_stop_streaming pauses (begins ∷ finishes ∷ []) s ≡ some (gone false true)
unfolding video_stop_streaming wait_for_streaming_stopped
video_stop_streaming_stops pauses s sound never = rw (present s.thread s.streaming_stopped sound) (
    join-ends _
      (wait_loop-IsSound attempts 0 pauses (record s { streaming_flag = false }) never sound))

-- Without an early return, a restart of a stream that is on and has a thread gives a stream that is
-- on with a new thread, where `malloc` and `pthread_create` succeed, and the old thread begins and
-- finishes while the join waits, as far as it has not done so before.
pub video_restart_streaming_restarts :
    (os : RestartOs) (s : Stream)
    → IsSound s
    → s.streaming_flag ≡ true
    → ((j : ℕ) → never_gives_up (os.pauses j) ≡ true)
    → os.joining ≡ begins ∷ finishes ∷ []
    → os.allocated ≡ true
    → os.create ≡ 0
    → video_restart_streaming os s ≡ some (at created true true)
unfolding video_restart_streaming video_get_streaming_status video_start_streaming is_absent
    wait_for_streaming_stopped wait_loop
video_restart_streaming_restarts os s sound on never joining room made =
    let stopped : video_stop_streaming os.pauses os.joining s ≡ some (gone false true) =
      ap (λ es. video_stop_streaming os.pauses es s) joining
      ∙ video_stop_streaming_stops os.pauses s sound never in
    simp (on, stopped, room, made) refl

-- Timings that have been reported ask for no restart when they come again.
detect_turn_settles :
    (w h : ℕ) (d : Detected)
    → let once = detect_turn (timings w h) d in
      detect_turn (timings w h) once.detected ≡ record once { restart = false }
unfolding detect_turn
detect_turn_settles w h d = ground arith
