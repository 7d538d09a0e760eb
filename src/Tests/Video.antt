-- ===== src/Tests/Video.antt =====
-- The stream of the HDMI input at concrete inputs (cgo/video.c).
use hardware_os.Base.{
  suc, ◌+◌, ◌≡◌, refl, true, false, Option, ℕ, none, some, length, List, [], ◌∷◌,
}
use hardware_os.Base.Int.{pos}
use hardware_os.Base.Os.{done}
use hardware_os.Video.{Venc, VencOs, venc_start}
use hardware_os.Base.Fds.{open_after}
use hardware_os.Video.Session.{
  SessionOs, Turn, ready, session, take_loop, queue_loop, release_loop, frame_loop,
  run_video_stream,
}
use hardware_os.Video.Session.Ends.{HasEnded, run_video_stream-HasEnded}
use hardware_os.Video.Session.Resources.{IsTidy, run_video_stream-IsTidy}
use hardware_os.Video.Control.{
  created, looping, begins, finishes, RestartOs, video_restart_streaming,
  video_get_streaming_status,
}
use hardware_os.Video.Control.Restart.{
  gone, gave_up, at, video_restart_streaming-gave_up, video_restart_streaming_restarts,
}

abbrev venc_off : Venc
venc_off = record { channel = false; venc_running = false; venc_read_thread = false }

abbrev venc_os : VencOs
venc_os = record {
  create = pos 0;
  start_recv = pos 0;
  thread = 0;
  stop_recv = pos 0;
  destroy = pos 0;
}

-- One frame, then the end of the stream.
abbrev good_session : SessionOs
good_session = record {
  open_reply = done 9;
  set_format = done 0;
  request = done 0;
  buffers = λ i. record { query = done 0; block = some (20 + i); fd = pos 10; errno = 0 };
  queue = λ i. done 0;
  stream_on = done 0;
  venc = venc_os;
  rounds =
      record {
        flag = true;
        select = ready;
        dequeue = done 0;
        block = true;
        send = pos 0;
        send_again = pos 0;
        requeue = done 0;
      }
      ∷ [];
}

abbrev first_two : ℕ → Option ℕ
first_two (suc (suc n)) = none
first_two i = some (20 + i)

-- The third buffer gets no block.
abbrev bad_session : SessionOs
bad_session = record good_session {
  buffers = λ i. record { query = done 0; block = first_two i; fd = pos 10; errno = 12 };
}

abbrev turns : List Turn
turns =
    record { flag = true; signal = true; os = good_session }
    ∷ record { flag = true; signal = false; os = good_session }
    ∷ record { flag = true; signal = true; os = bad_session }
    ∷ []

loses_two_blocks : length (open_after (run_video_stream turns venc_off).blocks []) ≡ 2
unfolding run_video_stream session take_loop queue_loop release_loop frame_loop venc_start
loses_two_blocks = refl

run_video_stream-IsTidy_example : IsTidy (run_video_stream turns venc_off)
run_video_stream-IsTidy_example = run_video_stream-IsTidy turns venc_off

abbrev restart_os : RestartOs
restart_os = record {
  pauses = λ i. [];
  joining = begins ∷ finishes ∷ [];
  pauses_after = λ i. [];
  allocated = true;
  create = 0;
}

video_restart_streaming-gave_up_example :
    video_restart_streaming restart_os (gave_up true) ≡ some (gone false false)
    × ((later : RestartOs)
        → video_restart_streaming later (gone false false) ≡ some (gone false false))
    × video_get_streaming_status (gone false false) ≡ 2
video_restart_streaming-gave_up_example = video_restart_streaming-gave_up restart_os

video_restart_streaming_restarts_example :
    video_restart_streaming restart_os (at looping true false) ≡ some (at created true true)
video_restart_streaming_restarts_example =
    video_restart_streaming_restarts restart_os (at looping true false) refl refl (λ j. refl) refl
      refl refl

-- The flag is cleared after one turn.
abbrev told : List Turn
told =
    record { flag = true; signal = true; os = good_session }
    ∷ record { flag = false; signal = true; os = good_session }
    ∷ []

run_video_stream-HasEnded_example : HasEnded told (run_video_stream told venc_off)
run_video_stream-HasEnded_example = run_video_stream-HasEnded told venc_off refl
