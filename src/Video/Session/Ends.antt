-- ===== src/Video/Session/Ends.antt =====
-- The streaming thread ends when it is told to (`run_video_stream` of cgo/video.c).
use hardware_os.Base.{
  ◌≡◌, ◌≢◌, refl, ◌⊎◌, inl, inr, Bool, true, false, not, ◌||◌, List, [], ◌∷◌, Bool-cases,
}
use hardware_os.Video.{Venc}
use hardware_os.Video.Session.{
  Ended, goes_on, returns, aborts, Turn, Streamed, session, run_video_stream, then_loop,
  add_session,
}

-- `streaming_flag` is read as cleared in one of the turns.
abbrev pub is_told : List Turn → Bool
is_told [] = false
is_told (t ∷ ts) = not t.flag || is_told ts

-- In one of the turns the thread may return early, or the program may be aborted, in the session with
-- the device.
abbrev pub GivesUp : List Turn → Type 0
GivesUp [] = ⊥
GivesUp (t ∷ ts) = ((v : Venc) × ((session t.os v).ended ≢ goes_on)) ⊎ GivesUp ts

-- The thread has ended, and has said so, or may have ended in a session.
abbrev pub HasEnded : List Turn → Streamed → Type 0
HasEnded ts r =
    (r.exited ≡ true)
    × ((r.streaming_stopped ≡ true) ⊎ ((r.streaming_stopped ≡ false) × GivesUp ts))

later : (t : Turn) (ts : List Turn) (r : Streamed) → HasEnded ts r → HasEnded (t ∷ ts) r
later t ts r (ends, inl said) = (ends, inl said)
later t ts r (ends, inr (quiet, gave)) = (ends, inr (quiet, inr gave))

after_session :
    (t : Turn) (ts : List Turn) (v : Venc) (e : Ended) (rest : Streamed)
    → (session t.os v).ended ≡ e
    → HasEnded ts rest
    → HasEnded (t ∷ ts) (then_loop (session t.os v) e rest)
unfolding then_loop
after_session t ts v goes_on rest h ended = later t ts (add_session (session t.os v) rest) ended
after_session t ts v (returns e) rest h ended = (refl, inr (refl, inl (v, λ goes. cc)))
after_session t ts v aborts rest h ended = (refl, inr (refl, inl (v, λ goes. cc)))

-- Once `streaming_flag` is read as cleared in a turn, the thread has ended; it has set
-- `streaming_stopped`, unless in one of the turns the work with the device can end in an early return
-- or in the abort of the program by a failed assertion.
pub run_video_stream-HasEnded :
    (ts : List Turn) (v : Venc) → is_told ts ≡ true → HasEnded ts (run_video_stream ts v)
unfolding run_video_stream
run_video_stream-HasEnded [] v told = cc
run_video_stream-HasEnded (t ∷ ts) v told = elim (Bool-cases t.flag) [
  | inr off ↦ simp off (refl, inl refl)
  | inl on ↦
      let rest_told : is_told ts ≡ true = simp on at told in
      elim (Bool-cases t.signal) [
        | inr idle ↦
            simp (on, idle)
              (later t ts (run_video_stream ts v) (run_video_stream-HasEnded ts v rest_told))
        | inl up ↦
            simp (on, up)
              (after_session t ts v (session t.os v).ended
                (run_video_stream ts (session t.os v).venc) refl
                (run_video_stream-HasEnded ts (session t.os v).venc rest_told))
      ]
]
