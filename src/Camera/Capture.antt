-- ===== src/Camera/Capture.antt =====
-- The thread that takes frames from the camera: `camera_capture_thread` of cgo/camera.c. What it
-- meets in each turn of its loop is an argument: a list of rounds, whose end is the thread waiting.
use hardware_os.Base.{
  ℕ, suc, ◌+◌, ◌%◌, ◌^◌, ◌≤◌, ◌<◌, ◌≡◌, Bool, true, false, not, Option, none, some, List, [], ◌∷◌,
  ◌++◌, arith, ◌==◌, if◌then◌else◌, length, is_some, Bool-cases, inl, inr,
}
use hardware_os.Base.Os.{Reply, done, failed, eintr, eagain, is_failed}
use hardware_os.Camera.{Camera}

-- What `select` answers: nothing within a second, an error, or a buffer that is ready.
pub data Select : Type 0 where
  timeout : Select
  select_failed : ℕ → Select
  ready : Select

-- One turn: `running` as it is read, the answer of `select`, that of VIDIOC_DQBUF (the number of the
-- buffer), the fields of the buffer, the time, and the answer of VIDIOC_QBUF.
pub record Round : Type 0 where
  pub running : Bool
  pub select : Select
  pub dequeue : Reply
  pub bytesused : ℕ
  pub sequence : ℕ
  pub now_ns : ℕ
  pub requeue : Reply

-- `data` is the number of the buffer whose memory is handed over.
pub record Frame : Type 0 where
  pub buffer : ℕ
  pub size : ℕ
  pub width : ℕ
  pub height : ℕ
  pub timestamp_ns : ℕ
  pub sequence : ℕ

-- What a turn does to the loop.
pub data Next : Type 0 where
  again : Next
  leave : Next

-- The state, the frame that is delivered to the callback, the buffers dequeued and queued again, and
-- whether the loop goes on.
pub record Turn : Type 0 where
  pub camera : Camera
  pub delivered : Option Frame
  pub dequeued : List ℕ
  pub requeued : List ℕ
  pub next : Next

abbrev idle : Camera → Next → Turn
idle s next = record { camera = s; delivered = none; dequeued = []; requeued = []; next = next }

frame_of : Camera → ℕ → Round → Frame
frame_of s buffer r = record {
  buffer = buffer;
  size = r.bytesused;
  width = s.config.width;
  height = s.config.height;
  timestamp_ns = r.now_ns;
  sequence = r.sequence;
}

got_frame : Camera → ℕ → Round → Turn
unfolding frame_of
got_frame s buffer r = record {
  camera = record s {
    status = record s.status {
      frame_count = (s.status.frame_count + 1) % 2 ^ 64;
      last_frame_ts_ns = r.now_ns;
    };
  };
  delivered = if is_some s.callback then some (frame_of s buffer r) else none;
  dequeued = buffer ∷ [];
  requeued = if is_failed r.requeue then [] else buffer ∷ [];
  next = if is_failed r.requeue then leave else again;
}

on_dequeue : Camera → Round → Reply → Turn
unfolding got_frame
on_dequeue s r (done buffer) = got_frame s buffer r
on_dequeue s r (failed e) = if suc e == eagain then idle s again else idle s leave

on_select : Camera → Round → Select → Turn
unfolding on_dequeue
on_select s r timeout = idle s again
on_select s r (select_failed e) = if e == eintr then idle s again else idle s leave
on_select s r ready = on_dequeue s r r.dequeue

unfoldable pub capture_turn : Camera → Round → Turn
unfolding on_select
capture_turn s r = if not r.running then idle s leave else on_select s r r.select

-- What the loop has done: the state, the frames delivered, the buffers dequeued and queued again,
-- and whether the thread has ended.
pub record Captured : Type 0 where
  pub camera : Camera
  pub frames : List Frame
  pub dequeued : List ℕ
  pub requeued : List ℕ
  pub ended : Bool

abbrev delivered_to : Option Frame → List Frame → List Frame
delivered_to none frames = frames
delivered_to (some f) frames = f ∷ frames

-- One turn before the rest of the thread.
then_rest : Turn → Captured → Captured
then_rest t rest = elim t.next [
  | leave ↦ record {
    camera = t.camera;
    frames = delivered_to t.delivered [];
    dequeued = t.dequeued;
    requeued = t.requeued;
    ended = true;
  }
  | again ↦ record {
    camera = rest.camera;
    frames = delivered_to t.delivered rest.frames;
    dequeued = t.dequeued ++ rest.dequeued;
    requeued = t.requeued ++ rest.requeued;
    ended = rest.ended;
  }
]

unfoldable pub camera_capture_thread : List Round → Camera → Captured
unfolding then_rest
camera_capture_thread [] s = record {
  camera = s;
  frames = [];
  dequeued = [];
  requeued = [];
  ended = false;
}
camera_capture_thread (r ∷ rounds) s =
    let t = capture_turn s r in let rest = camera_capture_thread rounds t.camera in then_rest t rest

-- What holds of the thread from a state on.
pub record IsAccounted (s : Camera) (c : Captured) : Type 0 where
  pub counted : c.camera.status.frame_count ≡ (s.status.frame_count + length c.dequeued) % 2 ^ 64
  pub given_back : c.ended ≡ false → c.requeued ≡ c.dequeued
  pub one_kept : length c.dequeued ≤ length c.requeued + 1
  pub all_delivered : is_some s.callback ≡ true → length c.frames ≡ length c.dequeued
  pub none_delivered : is_some s.callback ≡ false → c.frames ≡ []

data TurnView (s : Camera) (r : Round) : Turn → Type 0 where
  waits : TurnView s r (idle s again)
  stops : TurnView s r (idle s leave)
  takes : (buffer : ℕ) → TurnView s r (got_frame s buffer r)

dequeue_view : (s : Camera) (r : Round) (answer : Reply) → TurnView s r (on_dequeue s r answer)
unfolding on_dequeue
dequeue_view s r (done buffer) = takes buffer
dequeue_view s r (failed x) = elim (Bool-cases (suc x == eagain)) [
  | inl f ↦ rw f waits
  | inr f ↦ rw f stops
]

select_view : (s : Camera) (r : Round) (answer : Select) → TurnView s r (on_select s r answer)
unfolding on_select
select_view s r timeout = waits
select_view s r (select_failed x) = elim (Bool-cases (x == eintr)) [
  | inl f ↦ rw f waits
  | inr f ↦ rw f stops
]
select_view s r ready = dequeue_view s r r.dequeue

turn_view : (s : Camera) (r : Round) → TurnView s r (capture_turn s r)
unfolding capture_turn
turn_view s r = elim (Bool-cases r.running) [
  | inl e ↦ simp e (select_view s r r.select)
  | inr e ↦ simp e stops
]

view_accounts :
    (s : Camera) (r : Round) (t : Turn) (rest : Captured)
    → s.status.frame_count < 2 ^ 64
    → TurnView s r t
    → IsAccounted t.camera rest
    → IsAccounted s (then_rest t rest)
unfolding then_rest got_frame
view_accounts s r t rest small waits v = v
view_accounts s r t rest small stops v = ground arith
view_accounts s r t rest small (takes buffer) v =
    ground (arith, v.counted, v.given_back, v.one_kept, v.all_delivered, v.none_delivered)

view_small :
    (s : Camera) (r : Round) (t : Turn)
    → s.status.frame_count < 2 ^ 64
    → TurnView s r t
    → t.camera.status.frame_count < 2 ^ 64
unfolding got_frame
view_small s r t small waits = small
view_small s r t small stops = small
view_small s r t small (takes buffer) = omega arith

-- Whatever the thread meets: it counts each frame that it dequeues; it gives back every buffer, but
-- for at most the last one, and that only when it ends; and it delivers every frame if there is a
-- callback, and none if there is none.
pub camera_capture_thread_accounts :
    (rounds : List Round) (s : Camera)
    → s.status.frame_count < 2 ^ 64
    → IsAccounted s (camera_capture_thread rounds s)
unfolding camera_capture_thread
camera_capture_thread_accounts [] s small = ground arith
camera_capture_thread_accounts (r ∷ rounds) s small =
    let t = capture_turn s r in
    view_accounts s r t (camera_capture_thread rounds t.camera) small (turn_view s r)
      (camera_capture_thread_accounts rounds t.camera (view_small s r t small (turn_view s r)))
