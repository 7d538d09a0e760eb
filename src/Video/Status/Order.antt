-- ===== src/Video/Status/Order.antt =====
-- What the handler of the video state learns from the reports (cgo/ctrl.c and cgo/video.c), as they
-- come one after the other or cross each other.
use hardware_os.Base.{
  ℕ, ◌≡◌, refl, ◌∙◌, ◌⊎◌, inl, inr, Bool, true, false, List, [], ◌∷◌, if◌then◌else◌,
}
use hardware_os.Video.Control.{Stream, video_get_streaming_status}
use hardware_os.Video.Status.{
  VideoState, Reports, deliver, publish, video_report_format, video_send_format_report,
  set_streaming_flag, set_streaming_stopped, ReportCall, flag_set, stopped_set, format_reported,
  ReportStep, flag_write, stopped_write, status_read, status_sent, Threads, report_call,
  report_calls, report_step, report_steps, with_format, last_format,
}

heard :
    {A : Type 0} {x : A} (handler : Bool) (xs : List A)
    → (handler ≡ false) ⊎ ((earlier : List A) × ((if handler then x ∷ xs else xs) ≡ x ∷ earlier))
heard true xs = inr (xs, refl)
heard false xs = inl refl

-- The steps of a thread in `set_streaming_flag` and in `set_streaming_stopped`.
abbrev pub flag_steps : Bool → Bool → List ReportStep
flag_steps me flag = flag_write flag ∷ status_read me ∷ status_sent me ∷ []

abbrev pub stopped_steps : Bool → Bool → List ReportStep
stopped_steps me stopped = stopped_write stopped ∷ status_read me ∷ status_sent me ∷ []

-- The steps of two threads, each in its order.
pub data Interleaves : List ReportStep → List ReportStep → List ReportStep → Type 0 where
  both_done : Interleaves [] [] []
  first :
      (x : ReportStep) {xs ys zs : List ReportStep}
      → Interleaves xs ys zs
      → Interleaves (x ∷ xs) ys (x ∷ zs)
  second :
      (y : ReportStep) {xs ys zs : List ReportStep}
      → Interleaves xs ys zs
      → Interleaves xs (y ∷ ys) (y ∷ zs)

-- The streaming thread clears `streaming_stopped`, and reads the status of a stream that is on; the
-- controlling thread clears the flag, and reports; then the streaming thread goes on with its report.
abbrev crossing : List ReportStep
crossing =
    stopped_write false
    ∷ status_read true
    ∷ flag_write false
    ∷ status_read false
    ∷ status_sent false
    ∷ status_sent true
    ∷ []

crossing-Interleaves : Interleaves (stopped_steps true false) (flag_steps false false) crossing
crossing-Interleaves = first _ (first _ (second _ (second _ (second _ (first _ both_done)))))

module _ {F : Type 0} (handler : Bool) where
  -- After some calls from `t` on: the state holds the last format and the present status, and the
  -- handler was called with it last, if it is set.
  pub record IsCurrent (cs : List (ReportCall F)) (t : Stream × Reports F) : Type 0 where
    pub current : (report_calls handler cs t).1.state ≡ record (last_format cs t.1.state) {
      streaming = video_get_streaming_status (report_calls handler cs t).0;
    }
    pub known :
        (handler ≡ false)
        ⊎ ((earlier : List (VideoState F)) × ((report_calls handler cs t).1.delivered
              ≡ (report_calls handler cs t).1.state ∷ earlier))

  one_call : (c : ReportCall F) (t : Stream × Reports F) → IsCurrent (c ∷ []) t
  unfolding report_calls report_call set_streaming_flag set_streaming_stopped
      video_send_format_report video_report_format publish deliver
  one_call (flag_set flag) (s, r) = record { current = refl; known = heard handler r.delivered }
  one_call (stopped_set stopped) (s, r) = record {
    current = refl;
    known = heard handler r.delivered;
  }
  one_call (format_reported f) (s, r) = record { current = refl; known = heard handler r.delivered }

  -- The status that the state held before does not count.
  last_format-streaming :
      (cs : List (ReportCall F)) (a b : ℕ) (state : VideoState F)
      → record (last_format cs (record state { streaming = a })) { streaming = b }
        ≡ record (last_format cs state) { streaming = b }
  last_format-streaming [] a b state = refl
  last_format-streaming (flag_set flag ∷ cs) a b state = last_format-streaming cs a b state
  last_format-streaming (stopped_set stopped ∷ cs) a b state = last_format-streaming cs a b state
  last_format-streaming (format_reported f ∷ cs) a b state =
      last_format-streaming cs a b (with_format f state)

  last_format-report_call :
      (c : ReportCall F) (cs : List (ReportCall F)) (t : Stream × Reports F) (now : ℕ)
      → record (last_format cs (report_call handler c t).1.state) { streaming = now }
        ≡ record (last_format (c ∷ cs) t.1.state) { streaming = now }
  unfolding report_call set_streaming_flag set_streaming_stopped video_send_format_report
      video_report_format publish deliver
  last_format-report_call (flag_set flag) cs (s, r) now = last_format-streaming cs _ now r.state
  last_format-report_call (stopped_set stopped) cs (s, r) now =
      last_format-streaming cs _ now r.state
  last_format-report_call (format_reported f) cs (s, r) now =
      last_format-streaming cs _ now (with_format f r.state)

  -- Calls that come one after the other, without others between their steps, leave the last format and
  -- the present status in the state, and the handler, if it is set, was called with it last.
  pub report_calls-IsCurrent :
      (c : ReportCall F) (cs : List (ReportCall F)) (t : Stream × Reports F) → IsCurrent (c ∷ cs) t
  unfolding report_calls
  report_calls-IsCurrent c [] t = one_call c t
  report_calls-IsCurrent c (d ∷ cs) t =
      let later = report_calls-IsCurrent d cs (report_call handler c t) in
      record {
        current =
            later.current
            ∙ last_format-report_call c (d ∷ cs) t (
                video_get_streaming_status
                  (report_calls handler (d ∷ cs) (report_call handler c t)).0);
        known = later.known;
      }

  -- Alone, the steps do what the functions do.
  pub record AreSteps (t : Threads F) : Type 0 where
    pub flag_call :
        (me flag : Bool)
        → let after = report_steps handler (flag_steps me flag) t in
          (after.stream, after.reports) ≡ set_streaming_flag handler flag (t.stream, t.reports)
    pub stopped_call :
        (me stopped : Bool)
        → let after = report_steps handler (stopped_steps me stopped) t in
          (after.stream, after.reports)
          ≡ set_streaming_stopped handler stopped (t.stream, t.reports)

  steps_alone : (t : Threads F) → AreSteps t
  unfolding report_steps report_step publish deliver set_streaming_flag set_streaming_stopped
      video_send_format_report
  steps_alone t = record { flag_call = alone_flag; stopped_call = alone_stopped }
    where
      alone_flag :
          (me flag : Bool)
          → let after = report_steps handler (flag_steps me flag) t in
            (after.stream, after.reports) ≡ set_streaming_flag handler flag (t.stream, t.reports)
      alone_flag true flag = refl
      alone_flag false flag = refl

      alone_stopped :
          (me stopped : Bool)
          → let after = report_steps handler (stopped_steps me stopped) t in
            (after.stream, after.reports)
            ≡ set_streaming_stopped handler stopped (t.stream, t.reports)
      alone_stopped true stopped = refl
      alone_stopped false stopped = refl

  -- The state, and what the handler has last, say that the stream runs, but the status is that it is
  -- stopping.
  abbrev pub IsStale : Threads F → Type 0
  IsStale after =
      (after.reports.state.streaming ≡ 1)
      × (video_get_streaming_status after.stream ≡ 2)
      × ((earlier : List (VideoState F)) × (after.reports.delivered
            ≡ after.reports.state ∷ earlier))

  -- The steps of `set_streaming_flag` and `set_streaming_stopped`, run alone, do what the functions do.
  -- But from a stream whose flag is set, with a handler, there is an order in which the steps of the
  -- streaming thread in `set_streaming_stopped(false)` and those of the controlling thread in
  -- `set_streaming_flag(false)` interleave, so that after both the state, and what the handler has
  -- last, say that the stream runs, but the status is that it is stopping.
  pub report_steps-IsStale :
      (t : Threads F)
      → t.stream.streaming_flag ≡ true
      → handler ≡ true
      → AreSteps t
        × ((order : List ReportStep) × Interleaves
              (stopped_steps true false)
              (flag_steps false false)
              order
            × IsStale (report_steps handler order t))
  unfolding report_steps report_step publish deliver video_get_streaming_status
  report_steps-IsStale t on set =
      (steps_alone t, (crossing, crossing-Interleaves, simp (on, set) (refl, refl, (_, refl))))
