-- ===== src/Video/Status.antt =====
-- The reports of the video state: `video_report_format` and `video_send_format_report` of cgo/ctrl.c,
-- and `set_streaming_flag` and `set_streaming_stopped` of cgo/video.c, which end in a report. They are
-- called by the controlling thread, the streaming thread and the thread that follows the format, and
-- hold no lock over the report.
pub mod Order
use hardware_os.Base.{ℕ, Bool, true, false, Option, none, some, List, [], ◌∷◌, ◌++◌, if◌then◌else◌}
use hardware_os.Video.Control.{Stream, video_get_streaming_status}

-- `jetkvm_video_state_t`. The error is a text of the source, `none` for NULL.
pub record VideoState (F : Type 0) : Type 0 where
  pub ready : Bool
  pub streaming : ℕ
  pub error : Option (List ℕ)
  pub width : ℕ
  pub height : ℕ
  pub frame_per_second : F

-- `state`, and what the handler has been called with, the last call first.
pub record Reports (F : Type 0) : Type 0 where
  pub state : VideoState F
  pub delivered : List (VideoState F)

-- The arguments of `video_report_format`.
pub record Format (F : Type 0) : Type 0 where
  pub ready : Bool
  pub error : Option (List ℕ)
  pub width : ℕ
  pub height : ℕ
  pub frame_per_second : F

-- `handler`: whether `video_state_handler` is set.
module _ {F : Type 0} (handler : Bool) where
  deliver : VideoState F → Reports F → Reports F
  deliver state r = record {
    state = state;
    delivered = if handler then state ∷ r.delivered else r.delivered;
  }

  unfoldable pub video_report_format : Format F → Stream → Reports F → Reports F
  unfolding deliver
  video_report_format f s r =
      deliver
        (record {
          ready = f.ready;
          streaming = video_get_streaming_status s;
          error = f.error;
          width = f.width;
          height = f.height;
          frame_per_second = f.frame_per_second;
        })
        r

  -- `state.streaming = streaming`, and the call of the handler.
  publish : ℕ → Reports F → Reports F
  unfolding deliver
  publish streaming r = deliver (record r.state { streaming = streaming }) r

  unfoldable pub video_send_format_report : Stream → Reports F → Reports F
  unfolding publish
  video_send_format_report s r = publish (video_get_streaming_status s) r

  unfoldable pub set_streaming_flag : Bool → Stream × Reports F → Stream × Reports F
  unfolding video_send_format_report
  set_streaming_flag flag (s, r) =
      let t = record s { streaming_flag = flag } in (t, video_send_format_report t r)

  unfoldable pub set_streaming_stopped : Bool → Stream × Reports F → Stream × Reports F
  unfolding video_send_format_report
  set_streaming_stopped stopped (s, r) =
      let t = record s { streaming_stopped = stopped } in (t, video_send_format_report t r)

-- The calls that report.
pub data ReportCall (F : Type 0) : Type 0 where
  flag_set : Bool → ReportCall F
  stopped_set : Bool → ReportCall F
  format_reported : Format F → ReportCall F

-- The steps of two threads in `set_streaming_flag` and `set_streaming_stopped`: the write, the read of
-- the status into a local of the thread, and the rest.
pub data ReportStep : Type 0 where
  flag_write : Bool → ReportStep
  stopped_write : Bool → ReportStep
  status_read : Bool → ReportStep
  status_sent : Bool → ReportStep

-- The locals of the two threads stand beside what they share.
pub record Threads (F : Type 0) : Type 0 where
  pub stream : Stream
  pub reports : Reports F
  pub local : Bool → ℕ

abbrev pub same_thread : Bool → Bool → Bool
same_thread true true = true
same_thread false false = true
same_thread _ _ = false

module _ {F : Type 0} (handler : Bool) where
  unfoldable pub report_call : ReportCall F → Stream × Reports F → Stream × Reports F
  report_call (flag_set flag) t = set_streaming_flag handler flag t
  report_call (stopped_set stopped) t = set_streaming_stopped handler stopped t
  report_call (format_reported f) (s, r) = (s, video_report_format handler f s r)

  unfoldable pub report_calls : List (ReportCall F) → Stream × Reports F → Stream × Reports F
  report_calls [] t = t
  report_calls (c ∷ cs) t = report_calls cs (report_call c t)

  unfoldable pub report_step : ReportStep → Threads F → Threads F
  unfolding publish
  report_step (flag_write flag) t = record t { stream = record t.stream { streaming_flag = flag } }
  report_step (stopped_write stopped) t = record t {
    stream = record t.stream { streaming_stopped = stopped };
  }
  report_step (status_read me) t = record t {
    local = λ who. if same_thread me who then video_get_streaming_status t.stream else t.local who;
  }
  report_step (status_sent me) t = record t { reports = publish handler (t.local me) t.reports }

  unfoldable pub report_steps : List ReportStep → Threads F → Threads F
  report_steps [] t = t
  report_steps (x ∷ xs) t = report_steps xs (report_step x t)

module _ {F : Type 0} where
  -- The format of a report in the state, with the status as it was.
  abbrev pub with_format : Format F → VideoState F → VideoState F
  with_format f state = record {
    ready = f.ready;
    streaming = state.streaming;
    error = f.error;
    width = f.width;
    height = f.height;
    frame_per_second = f.frame_per_second;
  }

  abbrev pub last_format : List (ReportCall F) → VideoState F → VideoState F
  last_format [] state = state
  last_format (format_reported f ∷ cs) state = last_format cs (with_format f state)
  last_format (_ ∷ cs) state = last_format cs state
