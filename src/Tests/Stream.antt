-- ===== src/Tests/Stream.antt =====
-- The encoded stream, the detection of the format, the reports and the start and end of the video at
-- concrete inputs (cgo/video.c and cgo/ctrl.c).
use hardware_os.Base.{ℕ, ◌≡◌, refl, ◌⊎◌, true, false, none, some, List, [], ◌∷◌}
use hardware_os.Base.Int.{ℤ, pos, negsuc}
use hardware_os.Base.Os.{done}
use hardware_os.Base.Fds.{fd_list, Leads}
use hardware_os.Base.Float.{milli}
use hardware_os.Video.Reader.{
  Round, sent, released, venc_read_stream, packets, turns_on, hand_on, told_to_stop,
  venc_read_stream_lem,
}
use hardware_os.Video.Control.{
  Stream, absent, looping, created, begins, finishes, RestartOs, Detected, timings, query_failed,
}
use hardware_os.Video.Control.Restart.{at}
use hardware_os.Video.Detect.{
  DetectTurn, run_detect_format, WillRestart, IsOn, run_detect_format-IsOn,
}
use hardware_os.Video.Power.{VideoDevice, PowerOs, is_refused}
use hardware_os.Video.Power.Runs.{
  VideoOp, power_up, power_down, set_quality, power_steps, powered_off, power_steps_keep,
}
use hardware_os.Video.Status.{
  VideoState, Reports, Format, flag_set, stopped_set, format_reported, Threads, ReportStep,
  report_steps,
}
use hardware_os.Video.Status.Order.{
  IsCurrent, Interleaves, flag_steps, stopped_steps, AreSteps, IsStale, report_calls-IsCurrent,
  report_steps-IsStale,
}

-- A packet, an empty buffer, and another packet; then the flag is cleared.
abbrev rounds : List Round
rounds =
    record { running = true; get_stream = pos 0; packet = 1; size = 1500; release = pos 0 }
    ∷ record { running = true; get_stream = negsuc 6; packet = 0; size = 0; release = pos 0 }
    ∷ record { running = true; get_stream = pos 0; packet = 2; size = 900; release = negsuc 0 }
    ∷ record { running = false; get_stream = pos 0; packet = 3; size = 1; release = pos 0 }
    ∷ []

hands_on_two :
    (venc_read_stream (negsuc 6) true true rounds).events
    ≡ sent 1 1500 ∷ released 1 ∷ sent 2 900 ∷ released 2 ∷ []
unfolding venc_read_stream
hands_on_two = refl

venc_read_stream_lem_example :
    ((venc_read_stream (negsuc 6) true true rounds).events
      ≡ hand_on (negsuc 6) true (packets (negsuc 6) true (turns_on (negsuc 6) true rounds)))
    × ((told_to_stop (negsuc 6) true rounds ≡ false)
        ⊎ ((venc_read_stream (negsuc 6) true true rounds).ended ≡ true))
    × ((venc_read_stream (negsuc 6) true true rounds).crashed ≡ false)
    × ((venc_read_stream (negsuc 6) true false rounds).events ≡ [])
venc_read_stream_lem_example = venc_read_stream_lem (negsuc 6) true rounds

abbrev restart : RestartOs
restart = record {
  pauses = λ i. [];
  joining = begins ∷ finishes ∷ [];
  pauses_after = λ i. [];
  allocated = true;
  create = 0;
}

-- A new format, the loss of the signal, and the end.
abbrev detect_turns : List DetectTurn
detect_turns =
    record {
      should_exit = false;
      events = begins ∷ [];
      timings = timings 1280 720;
      restart = restart;
      event = done 0;
    }
    ∷ record {
      should_exit = false;
      events = [];
      timings = query_failed 67;
      restart = restart;
      event = done 0;
    }
    ∷ record {
      should_exit = true;
      events = [];
      timings = query_failed 67;
      restart = restart;
      event = done 0;
    }
    ∷ []

abbrev full_hd : Detected
full_hd = record { width = 1920; height = 1080; signal = true }

run_detect_format-IsOn_example :
    IsOn (run_detect_format (done 0) detect_turns full_hd (at created true true)).stream
run_detect_format-IsOn_example =
    run_detect_format-IsOn (done 0) detect_turns full_hd (at created true true)
      (quiet, (quiet, (quiet, tt))) refl tt
  where
    quiet : (true ≡ true) × WillRestart restart
    quiet = (refl, (λ j. refl, refl, refl, refl))

abbrev power_os : PowerOs
power_os = record {
  exists = true;
  sleep = record { open_file = done 7; mode = b'1' };
  sys_init = pos 0;
  open_subdev = done 8;
  create_pool = some 1;
}

abbrev power_ops : List (VideoOp ℤ)
power_ops = power_up power_os (pos 0) ∷ set_quality restart (pos 500) ∷ power_down (λ i. []) [] ∷ []

power_steps_keep_example :
    let o = power_steps milli power_ops (powered_off milli) in
    (is_refused milli o.device.quality_factor ≡ false)
    × Leads o.fds [] (fd_list o.device.sub_dev_fd)
unfolding is_refused
power_steps_keep_example = power_steps_keep milli power_ops refl

-- Up, and not streaming.
abbrev is_up : VideoDevice ℤ
is_up = record {
  sub_dev_fd = pos 8;
  pool = some 1;
  quality_factor = pos 1000;
  sleep_mode_available = true;
  should_exit = false;
  stream = at absent false true;
}

abbrev no_format : VideoState ℕ
no_format = record {
  ready = false;
  streaming = 0;
  error = none;
  width = 0;
  height = 0;
  frame_per_second = 0;
}

abbrev hd_format : Format ℕ
hd_format = record { ready = true; error = none; width = 1280; height = 720; frame_per_second = 60 }

abbrev nothing_reported : Stream × Reports ℕ
nothing_reported = (at looping true false, record { state = no_format; delivered = [] })

report_calls-IsCurrent_example :
    IsCurrent true
      (flag_set true ∷ format_reported hd_format ∷ stopped_set false ∷ [])
      nothing_reported
report_calls-IsCurrent_example =
    report_calls-IsCurrent true (flag_set true) (format_reported hd_format ∷ stopped_set false ∷ [])
      nothing_reported

abbrev two_threads : Threads ℕ
two_threads = record {
  stream = at created true true;
  reports = record { state = no_format; delivered = [] };
  local = λ me. 0;
}

report_steps-IsStale_example :
    AreSteps true two_threads
    × ((order : List ReportStep) × Interleaves
          (stopped_steps true false)
          (flag_steps false false)
          order
        × IsStale true (report_steps true order two_threads))
report_steps-IsStale_example = report_steps-IsStale true two_threads refl refl
