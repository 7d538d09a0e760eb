-- ===== src/Video/Detect.antt =====
-- The thread that follows the format of the input: `run_detect_format` of cgo/video.c, over the
-- stream that it restarts. What it meets in each turn is an argument; the end of the list is the
-- thread waiting for the next event. Left out are the sleep mode (Video/Power), which each turn turns
-- off, the rate of the frames, and the closing of the control device at the end.
use hardware_os.Base.{
  ℕ, ◌≡◌, refl, ◌∙◌, inl, inr, Bool, true, false, Option, none, some, List, [], ◌∷◌, All,
  if◌then◌else◌, Bool-cases,
}
use hardware_os.Base.Os.{Reply, done, failed, is_failed}
use hardware_os.Video.Control.{
  Stream, ThreadEvent, created, begins, finishes, thread_steps, video_restart_streaming, RestartOs,
  FormatReport, Detected, Timings, Detection, detect_turn,
}
use hardware_os.Video.Control.Restart.{
  never_gives_up, IsSound, at, gone, thread_steps-gone, thread_steps-IsSound, restart-gone,
  video_restart_streaming_restarts,
}

-- `should_exit` as it is read, what the streaming thread has done since the last turn, the answer of
-- VIDIOC_QUERY_DV_TIMINGS, what a restart meets, and the answer of VIDIOC_DQEVENT.
pub record DetectTurn : Type 0 where
  pub should_exit : Bool
  pub events : List ThreadEvent
  pub timings : Timings
  pub restart : RestartOs
  pub event : Reply

-- `stream` is `none` where the thread waits for a join that does not return.
pub record DetectRun : Type 0 where
  pub detected : Detected
  pub stream : Option Stream
  pub reports : List FormatReport
  pub ended : Bool

abbrev rests : Detected → Option Stream → Bool → DetectRun
rests d stream ended = record { detected = d; stream = stream; reports = []; ended = ended }

-- `if (should_restart) video_restart_streaming();`
restart_if : Bool → RestartOs → Stream → Option Stream
restart_if wanted os s = if wanted then video_restart_streaming os s else some s

abbrev with_report : FormatReport → DetectRun → DetectRun
with_report r run = record run { reports = r ∷ run.reports }

-- The wait for the next event: it is made only after a report.
wait_event : Option FormatReport → Reply → DetectRun → DetectRun → DetectRun
wait_event none event rest stop = rest
wait_event (some r) (done n) rest stop = with_report r rest
wait_event (some r) (failed e) rest stop = with_report r stop

on_restart : Option Stream → Detection → Reply → (Stream → DetectRun) → DetectRun
unfolding wait_event
on_restart none det event next = rests det.detected none false
on_restart (some s) det event next =
    wait_event det.report event (next s) (rests det.detected (some s) true)

-- The loop of the thread, after it has subscribed to the events.
unfoldable pub detect_loop : List DetectTurn → Detected → Stream → DetectRun
unfolding on_restart restart_if
detect_loop [] d s = rests d (some s) false
detect_loop (t ∷ ts) d s =
    let det = detect_turn t.timings d in
    let now = thread_steps t.events s in
    let rest =
      on_restart (restart_if det.restart t.restart now) det t.event (detect_loop ts det.detected) in
    if t.should_exit then rests d (some s) true else rest

unfoldable pub run_detect_format : Reply → List DetectTurn → Detected → Stream → DetectRun
run_detect_format subscribed ts d s =
    if is_failed subscribed then rests d (some s) true else detect_loop ts d s

-- In a restart the streaming thread does not give up but begins and finishes, and a new one is created.
abbrev pub WillRestart : RestartOs → Type 0
WillRestart os =
    ((j : ℕ) → never_gives_up (os.pauses j) ≡ true)
    × (os.joining ≡ begins ∷ finishes ∷ [])
    × (os.allocated ≡ true)
    × (os.create ≡ 0)

abbrev pub IsQuiet : DetectTurn → Type 0
IsQuiet t = (never_gives_up t.events ≡ true) × WillRestart t.restart

-- The stream is on, with a thread.
abbrev pub IsOn : Option Stream → Type 0
IsOn stream = (s : Stream) × (stream ≡ some s) × (s.streaming_flag ≡ true) × IsSound s

restart_if-IsOn :
    (wanted : Bool) (os : RestartOs) (s : Stream)
    → WillRestart os
    → s.streaming_flag ≡ true
    → IsSound s
    → IsOn (restart_if wanted os s)
unfolding restart_if
restart_if-IsOn false os s will on sound = (s, refl, on, sound)
restart_if-IsOn true os s (never, joining, room, made) on sound = (
  at created true true,
  video_restart_streaming_restarts os s sound on never joining room made,
  refl,
  tt,
)

wait_event-IsOn :
    (r : Option FormatReport) (event : Reply) (rest stop : DetectRun)
    → IsOn rest.stream
    → IsOn stop.stream
    → IsOn (wait_event r event rest stop).stream
unfolding wait_event
wait_event-IsOn none event rest stop h k = h
wait_event-IsOn (some r) (done n) rest stop h k = h
wait_event-IsOn (some r) (failed e) rest stop h k = k

on_restart-IsOn :
    (det : Detection) (event : Reply) (next : Stream → DetectRun) (stream : Option Stream)
    → IsOn stream
    → ((s : Stream) → s.streaming_flag ≡ true → IsSound s → IsOn (next s).stream)
    → IsOn (on_restart stream det event next).stream
unfolding on_restart
on_restart-IsOn det event next stream (s, e, on, sound) later = rw e (
    wait_event-IsOn det.report event (next s) (rests det.detected (some s) true) (later s on sound)
      (s, refl, on, sound))

detect_loop-IsOn :
    (ts : List DetectTurn) (d : Detected) (s : Stream)
    → All IsQuiet ts
    → s.streaming_flag ≡ true
    → IsSound s
    → IsOn (detect_loop ts d s).stream
unfolding detect_loop
detect_loop-IsOn [] d s quiet on sound = (s, refl, on, sound)
detect_loop-IsOn (t ∷ ts) d s (quiet, later) on sound = elim (Bool-cases t.should_exit) [
  | inl ends ↦ simp ends (s, refl, on, sound)
  | inr goes ↦
      let (still, same) = thread_steps-IsSound t.events s quiet.0 sound in
      let det = detect_turn t.timings d in
      simp goes (
        on_restart-IsOn det t.event (detect_loop ts det.detected) _
          (restart_if-IsOn det.restart t.restart (thread_steps t.events s) quiet.1 (same ∙ on)
            still)
          (λ s' on' sound'. detect_loop-IsOn ts det.detected s' later on' sound'))
]

-- A stream that is on with a thread stays on with a thread over any changes of the format, also when
-- the thread that follows the format ends: if the streaming thread never gives up, and in every restart
-- the old thread begins and finishes and the new one is created.
pub run_detect_format-IsOn :
    (subscribed : Reply) (ts : List DetectTurn) (d : Detected) (s : Stream)
    → All IsQuiet ts
    → s.streaming_flag ≡ true
    → IsSound s
    → IsOn (run_detect_format subscribed ts d s).stream
unfolding run_detect_format
run_detect_format-IsOn subscribed ts d s quiet on sound = elim (Bool-cases (is_failed subscribed)) [
  | inl bad ↦ rw bad (s, refl, on, sound)
  | inr good ↦ rw good (detect_loop-IsOn ts d s quiet on sound)
]

on_restart-gone :
    (det : Detection) (event : Reply) (next : Stream → DetectRun)
    → (next (gone false false)).stream ≡ some (gone false false)
    → (on_restart (some (gone false false)) det event next).stream ≡ some (gone false false)
unfolding on_restart
on_restart-gone det event next h = waits det.report event
  where
    waits :
        (r : Option FormatReport) (event : Reply)
        → (wait_event r event
            (next (gone false false))
            (rests det.detected (some (gone false false)) true)).stream
          ≡ some (gone false false)
    waits none event = h
    waits (some r) (done n) = h
    waits (some r) (failed e) = refl

restart_if-gone :
    (wanted : Bool) (os : RestartOs)
    → restart_if wanted os (gone false false) ≡ some (gone false false)
unfolding restart_if
restart_if-gone true os = restart-gone os
restart_if-gone false os = refl

-- A stream that was stopped after its thread had returned early stays off over any changes of the
-- format.
detect_loop-gone :
    (ts : List DetectTurn) (d : Detected)
    → (detect_loop ts d (gone false false)).stream ≡ some (gone false false)
unfolding detect_loop
detect_loop-gone [] d = refl
detect_loop-gone (t ∷ ts) d = elim (Bool-cases t.should_exit) [
  | inl ends ↦ simp ends refl
  | inr goes ↦
      let det = detect_turn t.timings d in
      simp (goes, thread_steps-gone t.events false false, restart_if-gone det.restart t.restart)
        (on_restart-gone det t.event (detect_loop ts det.detected)
          (detect_loop-gone ts det.detected))
]
