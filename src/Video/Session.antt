-- ===== src/Video/Session.antt =====
-- The streaming thread: `run_video_stream` of cgo/video.c. What it meets is an argument: a list of
-- turns of its outer loop, each with the answers of the system.
pub mod Ends
pub mod Resources
use hardware_os.Base.{
  ℕ, zero, suc, ◌+◌, ◌%◌, ◌^◌, Bool, true, false, not, ◌||◌, Option, none, some, List, [], ◌∷◌,
  ◌++◌, replicate, ◌==◌, if◌then◌else◌,
}
use hardware_os.Base.Int.{ℤ, pos, negsuc, is_neg}
use hardware_os.Base.Fds.{FdEvent, opened, closed}
use hardware_os.Base.Os.{Reply, done, failed, eintr, is_failed}
use hardware_os.Video.{Venc, VencOs, venc_start, venc_stop, is_error}

pub data Select : Type 0 where
  timeout : Select
  select_failed : ℕ → Select
  ready : Select

-- One turn of the inner loop: `streaming_flag` as it is read, and the answers of `select`,
-- VIDIOC_DQBUF, RK_MPI_MMZ_Fd2Handle (`false` for RK_NULL), the two attempts of RK_MPI_VENC_SendFrame
-- and VIDIOC_QBUF.
pub record Round : Type 0 where
  pub flag : Bool
  pub select : Select
  pub dequeue : Reply
  pub block : Bool
  pub send : ℤ
  pub send_again : ℤ
  pub requeue : Reply

-- `num`, and how many frames the encoder took.
pub record Frames : Type 0 where
  pub num : ℕ
  pub encoded : ℕ

sent : Round → Bool
sent r = not (is_error r.send) || not (is_error r.send_again)

count_frame : Bool → Frames → Frames
count_frame b f = record {
  num = (f.num + 1) % 2 ^ 32;
  encoded = if b then f.encoded + 1 else f.encoded;
}

-- The inner loop, `none` where `assert(blk != RK_NULL)` fails. The failure to send or to queue again is
-- only logged. The end of the list stands for the flag read as cleared.
unfoldable pub frame_loop : List Round → Frames → Option Frames
unfolding count_frame sent
frame_loop [] f = some f
frame_loop (r ∷ rs) f =
    let rest = frame_loop rs f in
    let next = frame_loop rs (count_frame (sent r) f) in
    if not r.flag then some f else elim r.select [
      | timeout ↦ some f
      | select_failed e ↦ if e == eintr then rest else some f
      | ready ↦ if is_failed r.dequeue then some f else (if r.block then next else none)
    ]

-- The answers for one buffer: VIDIOC_QUERYBUF, RK_MPI_MB_GetMB, RK_MPI_MB_Handle2Fd, and the `errno`
-- that stands when one of the vendor's two calls fails.
pub record BufferOs : Type 0 where
  pub query : Reply
  pub block : Option ℕ
  pub fd : ℤ
  pub errno : ℕ

-- Why a function of the thread stops: it does not, it returns, or the program is aborted.
pub data Ended : Type 0 where
  goes_on : Ended
  returns : ℕ → Ended
  aborts : Ended

-- After some turns of the first loop over the buffers: `mb_blk` in the buffers it was to fill, what was
-- closed, the blocks taken from the pool (`opened`), and how it ends.
pub record Taken : Type 0 where
  pub mb_blks : List (Option ℕ)
  pub fds : List FdEvent
  pub blocks : List FdEvent
  pub ended : Ended

-- `close(video_dev_fd); return (void *)errno;`, with `n` buffers not filled.
leaves : ℕ → ℕ → ℕ → Taken
leaves fd n e = record {
  mb_blks = replicate n none;
  fds = closed fd ∷ [];
  blocks = [];
  ended = returns e;
}

with_block : ℕ → Option ℕ → Taken → Taken
with_block m block rest = record rest {
  mb_blks = block ∷ rest.mb_blks;
  blocks = opened m ∷ rest.blocks;
}

take_block : ℕ → ℕ → BufferOs → Option ℕ → Taken → Taken
unfolding leaves with_block
take_block fd n os none rest = leaves fd (suc n) os.errno
take_block fd n os (some m) rest =
    with_block m (some m) (if is_neg os.fd then leaves fd n os.errno else rest)

take_if : ℕ → ℕ → Reply → BufferOs → Taken → Taken
unfolding take_block leaves
take_if fd n (done r) os rest = take_block fd n os os.block rest
take_if fd n (failed e) os rest = leaves fd (suc n) (suc e)

-- The first loop, with `n` buffers left, from the buffer i on.
unfoldable pub take_loop : ℕ → ℕ → ℕ → (ℕ → BufferOs) → Taken
unfolding take_if
take_loop fd zero i os = record { mb_blks = []; fds = []; blocks = []; ended = goes_on }
take_loop fd (suc n) i os =
    let rest = take_loop fd n (suc i) os in take_if fd n (os i).query (os i) rest

-- The last loop over the buffers: `if (buffers[i].mb_blk != NULL) RK_MPI_MB_ReleaseMB(…)`.
unfoldable pub release_loop : List (Option ℕ) → List FdEvent
release_loop [] = []
release_loop (none ∷ rest) = release_loop rest
release_loop (some m ∷ rest) = closed m ∷ release_loop rest

queue_if : Reply → Ended → Ended
queue_if (done n) rest = rest
queue_if (failed e) rest = returns (suc e)

unfoldable pub queue_loop : ℕ → ℕ → (ℕ → Reply) → Ended
unfolding queue_if
queue_loop zero i os = goes_on
queue_loop (suc n) i os = let rest = queue_loop n (suc i) os in queue_if (os i) rest

-- The answers in one turn of the outer loop that opens the device.
pub record SessionOs : Type 0 where
  pub open_reply : Reply
  pub set_format : Reply
  pub request : Reply
  pub buffers : ℕ → BufferOs
  pub queue : ℕ → Reply
  pub stream_on : Reply
  pub venc : VencOs
  pub rounds : List Round

-- What a turn has opened and closed, the blocks that it has taken from the pool and released (`opened`
-- and `closed`), and the encoder.
pub record Session : Type 0 where
  pub fds : List FdEvent
  pub blocks : List FdEvent
  pub venc : Venc
  pub frames : Option Frames
  pub ended : Ended

abbrev input_buffer_count : ℕ
input_buffer_count = 3

abbrev pub no_frames : Frames
no_frames = record { num = 0; encoded = 0 }

-- A turn that leaves before the encoder is started.
left : List FdEvent → List FdEvent → Venc → Ended → Session
left fds blocks v ended = record {
  fds = fds;
  blocks = blocks;
  venc = v;
  frames = some no_frames;
  ended = ended;
}

-- From `cleanup` to the end of the turn. A failed assertion does not come there.
cleanup : SessionOs → ℕ → Taken → Venc → Option Frames → Session
cleanup os fd t v none = record {
  fds = opened fd ∷ [];
  blocks = t.blocks;
  venc = v;
  frames = none;
  ended = aborts;
}
cleanup os fd t v (some f) = record {
  fds = opened fd ∷ closed fd ∷ [];
  blocks = t.blocks ++ release_loop t.mb_blks;
  venc = (venc_stop os.venc v).0;
  frames = some f;
  ended = goes_on;
}

-- From `venc_start` on.
encode : SessionOs → ℕ → Taken → Venc → Session
unfolding cleanup
encode os fd t v =
    let (started, ret) = venc_start os.venc v in
    cleanup os fd t started
      (if is_error ret then some no_frames else frame_loop os.rounds no_frames)

on_stream : SessionOs → ℕ → Taken → Venc → Reply → Session
unfolding encode left
on_stream os fd t v (done n) = encode os fd t v
on_stream os fd t v (failed e) = left (opened fd ∷ closed fd ∷ []) t.blocks v (returns (suc e))

-- The second loop closes the device where it returns.
on_queue : SessionOs → ℕ → Taken → Venc → Ended → Session
unfolding on_stream left
on_queue os fd t v goes_on = on_stream os fd t v os.stream_on
on_queue os fd t v ended = left (opened fd ∷ closed fd ∷ []) t.blocks v ended

on_take : SessionOs → ℕ → Taken → Venc → Ended → Session
unfolding on_queue left
on_take os fd t v goes_on = on_queue os fd t v (queue_loop input_buffer_count 0 os.queue)
on_take os fd t v ended = left (opened fd ∷ t.fds) t.blocks v ended

on_request : SessionOs → ℕ → Venc → Reply → Session
unfolding on_take left
on_request os fd v (done n) =
    let t = take_loop fd input_buffer_count 0 os.buffers in on_take os fd t v t.ended
on_request os fd v (failed e) = left (opened fd ∷ closed fd ∷ []) [] v (returns (suc e))

on_format : SessionOs → ℕ → Venc → Reply → Session
unfolding on_request left
on_format os fd v (done n) = on_request os fd v os.request
on_format os fd v (failed e) = left (opened fd ∷ closed fd ∷ []) [] v goes_on

on_open : SessionOs → Venc → Reply → Session
unfolding on_format left
on_open os v (done fd) = on_format os fd v os.set_format
on_open os v (failed e) = left [] [] v goes_on

-- One turn with a signal.
unfoldable pub session : SessionOs → Venc → Session
unfolding on_open
session os v = on_open os v os.open_reply

-- A turn of the outer loop: `streaming_flag` and `detected_signal` as they are read.
pub record Turn : Type 0 where
  pub flag : Bool
  pub signal : Bool
  pub os : SessionOs

-- What the thread has opened and closed, and `streaming_stopped` as it leaves it. `exited` tells a
-- thread that has ended from one that is still in its loop when the turns are used up; `aborted` says
-- that the whole program has.
pub record Streamed : Type 0 where
  pub fds : List FdEvent
  pub blocks : List FdEvent
  pub exited : Bool
  pub aborted : Bool
  pub streaming_stopped : Bool

abbrev nothing : Bool → Bool → Bool → Streamed
nothing exited aborted stopped = record {
  fds = [];
  blocks = [];
  exited = exited;
  aborted = aborted;
  streaming_stopped = stopped;
}

-- What a turn has opened and closed, before the rest.
abbrev add_session : Session → Streamed → Streamed
add_session s t = record t { fds = s.fds ++ t.fds; blocks = s.blocks ++ t.blocks }

then_loop : Session → Ended → Streamed → Streamed
then_loop s goes_on rest = add_session s rest
then_loop s (returns e) rest = add_session s (nothing true false false)
then_loop s aborts rest = add_session s (nothing true true false)

-- The outer loop, after `set_streaming_stopped(false)`.
unfoldable pub run_video_stream : List Turn → Venc → Streamed
unfolding then_loop session
run_video_stream [] v = nothing false false false
run_video_stream (t ∷ ts) v =
    let s = session t.os v in
    let idle = run_video_stream ts v in
    let rest = run_video_stream ts s.venc in
    if not t.flag
    then nothing true false true
    else (if not t.signal then idle else then_loop s s.ended rest)
