-- ===== src/Video/Control.antt =====
-- Starting, stopping and restarting the stream: the functions over `streaming_flag`,
-- `streaming_stopped` and `streaming_thread` of cgo/video.c, for one controlling thread. The
-- streaming thread's own steps come as lists of events, which are arguments.
pub mod Restart
use hardware_os.Base.Os.{enolink, enolck, erange}
use hardware_os.Base.{
  ℕ, zero, suc, ◌+◌, ◌%◌, ◌^◌, Bool, true, false, not, ◌||◌, Option, none, some, List, [], ◌∷◌,
  ◌==◌, if◌then◌else◌,
}
use hardware_os.Base.Float.{FloatOps}

-- How far the streaming thread is: not created, or created and before, in or past its loop.
pub data Thread : Type 0 where
  absent : Thread
  created : Thread
  looping : Thread
  exited : Thread

-- `thread` is `absent` exactly when `streaming_thread` is NULL.
pub record Stream : Type 0 where
  pub streaming_flag : Bool
  pub streaming_stopped : Bool
  pub thread : Thread

-- The streaming thread begins, leaves its loop, or returns early with an error.
pub data ThreadEvent : Type 0 where
  begins : ThreadEvent
  finishes : ThreadEvent
  gives_up : ThreadEvent

-- What an event does: it happens only where the thread is.
thread_at : Thread → ThreadEvent → Stream → Stream
thread_at created begins s = record s { streaming_stopped = false; thread = looping }
thread_at looping finishes s = record s { streaming_stopped = true; thread = exited }
thread_at looping gives_up s = record s { thread = exited }
thread_at _ _ s = s

unfoldable pub thread_step : ThreadEvent → Stream → Stream
unfolding thread_at
thread_step e s = thread_at s.thread e s

unfoldable pub thread_steps : List ThreadEvent → Stream → Stream
thread_steps [] s = s
thread_steps (e ∷ es) s = thread_steps es (thread_step e s)

unfoldable pub is_absent : Thread → Bool
is_absent absent = true
is_absent _ = false

unfoldable pub is_exited : Thread → Bool
is_exited exited = true
is_exited _ = false

-- `allocated`: `malloc` succeeds; `create` is the result of `pthread_create`.
unfoldable pub video_start_streaming : Bool → ℕ → Stream → Stream
unfolding is_absent
video_start_streaming allocated create s =
    if not (is_absent s.thread)
    then s
    else (if not allocated
        then s
        else (if create == 0
            then record s { streaming_flag = true; thread = created }
            else record s { streaming_flag = false }))

-- The attempts left, and the events of the streaming thread in each pause.
unfoldable pub wait_loop : ℕ → ℕ → (ℕ → List ThreadEvent) → Stream → Stream × Bool
wait_loop zero i pauses s = (s, false)
wait_loop (suc n) i pauses s =
    let rest = wait_loop n (suc i) pauses (thread_steps (pauses i) s) in
    if s.streaming_stopped then (s, true) else rest

abbrev pub attempts : ℕ
attempts = 30

unfoldable pub wait_for_streaming_stopped : (ℕ → List ThreadEvent) → Stream → Stream × Bool
wait_for_streaming_stopped pauses s = wait_loop attempts 0 pauses s

-- `joining`: the events of the streaming thread while `pthread_join` waits. It returns only when
-- the thread has ended: `none` stands for waiting on.
unfoldable pub join : List ThreadEvent → Stream → Option Stream
join joining s =
    let t = thread_steps joining s in
    if is_exited t.thread then some (record t { thread = absent }) else none

unfoldable pub video_stop_streaming :
    (ℕ → List ThreadEvent) → List ThreadEvent → Stream → Option Stream
unfolding join
video_stop_streaming pauses joining s =
    if is_absent s.thread
    then some s
    else join joining (wait_for_streaming_stopped pauses (record s { streaming_flag = false })).0

unfoldable pub video_get_streaming_status : Stream → ℕ
video_get_streaming_status s =
    if s.streaming_flag then 1 else (if not s.streaming_stopped then 2 else 0)

-- What a restart meets: the streaming thread's events in the two waits and in the join, and the
-- answers to the start.
pub record RestartOs : Type 0 where
  pub pauses : ℕ → List ThreadEvent
  pub joining : List ThreadEvent
  pub pauses_after : ℕ → List ThreadEvent
  pub allocated : Bool
  pub create : ℕ

start_if_stopped : RestartOs → Stream × Bool → Stream
start_if_stopped os (s, true) = video_start_streaming os.allocated os.create s
start_if_stopped os (s, false) = s

after_stop : RestartOs → Option Stream → Option Stream
unfolding start_if_stopped
after_stop os none = none
after_stop os (some s) = some (start_if_stopped os (wait_for_streaming_stopped os.pauses_after s))

unfoldable pub video_restart_streaming : RestartOs → Stream → Option Stream
unfolding after_stop
video_restart_streaming os s =
    if video_get_streaming_status s == 0
    then some s
    else after_stop os (video_stop_streaming os.pauses os.joining s)

-- The format that is reported: `video_report_format` with its arguments, the rate left out. The
-- dimensions are `u_int16_t`.
pub data FormatReport : Type 0 where
  no_signal : FormatReport
  no_lock : FormatReport
  out_of_range : FormatReport
  format : ℕ → ℕ → FormatReport

-- `detected_width`, `detected_height` and `detected_signal`.
pub record Detected : Type 0 where
  pub width : ℕ
  pub height : ℕ
  pub signal : Bool

-- What VIDIOC_QUERY_DV_TIMINGS answers: a width and a height, or an error with its `errno`.
pub data Timings : Type 0 where
  timings : ℕ → ℕ → Timings
  query_failed : ℕ → Timings

-- What a turn of `run_detect_format` does up to the wait for the next event: the report, and
-- whether it asks for a restart. Without a report the turn ends after a pause, without that wait.
pub record Detection : Type 0 where
  pub detected : Detected
  pub report : Option FormatReport
  pub restart : Bool

report_of : ℕ → Option FormatReport
report_of e =
    if e == enolink
    then some no_signal
    else (if e == enolck then some no_lock else (if e == erange then some out_of_range else none))

unfoldable pub detect_turn : Timings → Detected → Detection
unfolding report_of
detect_turn (query_failed e) d = record {
  detected = record d { signal = false };
  report = report_of e;
  restart = false;
}
detect_turn (timings width height) d = record {
  detected = record { width = width; height = height; signal = true };
  report = some (format (width % 2 ^ 16) (height % 2 ^ 16));
  restart = not (width == d.width) || not (height == d.height) || not d.signal;
}
