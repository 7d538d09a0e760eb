-- ===== src/Video/Session/Resources.antt =====
-- What the streaming thread opens, takes, closes and gives back (`run_video_stream` of cgo/video.c).
use hardware_os.Base.{
  ℕ, zero, suc, ◌≡◌, ◌≢◌, refl, ap, ◌∙◌, ◌⊎◌, inl, inr, Bool, true, false, not, Option, none, some,
  List, [], ◌∷◌, ◌++◌, map, if◌then◌else◌, Bool-cases,
}
use hardware_os.Base.Int.{is_neg}
use hardware_os.Base.Fds.{
  FdEvent, opened, closed, open_after, open_after-append, closes_open, closes_open-append,
}
use hardware_os.Base.Fds.Balance.{opened-closes, opened_then_closed}
use hardware_os.Base.Os.{Reply, done, failed}
use hardware_os.Video.{Venc, venc_start}
use hardware_os.Video.Session.{
  BufferOs, SessionOs, Session, Frames, Ended, goes_on, returns, aborts, Taken, leaves, with_block,
  take_block, take_if, take_loop, release_loop, left, cleanup, encode, on_stream, on_queue, on_take,
  on_request, on_format, on_open, session, Turn, Streamed, nothing, add_session, then_loop,
  run_video_stream,
}

-- The first loop over the buffers took some blocks. It went through all buffers, which hold the blocks,
-- and closed nothing; or it returned, and closed the device.
record IsTaken (fd : ℕ) (t : Taken) : Type 0 where
  ms : List ℕ
  takes : t.blocks ≡ map opened ms
  ends :
      ((t.ended ≡ goes_on) × (t.fds ≡ []) × (t.mb_blks ≡ map some ms))
      ⊎ ((e : ℕ) × (t.ended ≡ returns e) × (t.fds ≡ closed fd ∷ []))

leaves-IsTaken : (fd n e : ℕ) → IsTaken fd (leaves fd n e)
unfolding leaves
leaves-IsTaken fd n e = record { ms = []; takes = refl; ends = inr (e, refl, refl) }

with_block-IsTaken : (fd m : ℕ) (t : Taken) → IsTaken fd t → IsTaken fd (with_block m (some m) t)
unfolding with_block
with_block-IsTaken fd m t v = record {
  ms = m ∷ v.ms;
  takes = ap (λ log. opened m ∷ log) v.takes;
  ends = elim v.ends [
    | inl (goes, fds, blks) ↦ inl (goes, fds, ap (λ rest. some m ∷ rest) blks)
    | inr back ↦ inr back
  ];
}

take_if-IsTaken :
    (fd n : ℕ) (r : Reply) (os : BufferOs) (t : Taken)
    → IsTaken fd t
    → IsTaken fd (take_if fd n r os t)
unfolding take_if take_block
take_if-IsTaken fd n (failed e) os t v = leaves-IsTaken fd (suc n) (suc e)
take_if-IsTaken fd n (done r) os t v = with_answer os.block
  where
    with_answer : (block : Option ℕ) → IsTaken fd (take_block fd n os block t)
    with_answer none = leaves-IsTaken fd (suc n) os.errno
    with_answer (some m) = with_block-IsTaken fd m _ (elim (Bool-cases (is_neg os.fd)) [
      | inl bad ↦ rw bad (leaves-IsTaken fd n os.errno)
      | inr good ↦ rw good v
    ])

take_loop-IsTaken : (fd n i : ℕ) (os : ℕ → BufferOs) → IsTaken fd (take_loop fd n i os)
unfolding take_loop
take_loop-IsTaken fd zero i os = record { ms = []; takes = refl; ends = inl (refl, refl, refl) }
take_loop-IsTaken fd (suc n) i os =
    take_if-IsTaken fd n (os i).query (os i) _ (take_loop-IsTaken fd n (suc i) os)

release_loop-some : (ms : List ℕ) → release_loop (map some ms) ≡ map closed ms
unfolding release_loop
release_loop-some [] = refl
release_loop-some (m ∷ ms) = ap (λ log. closed m ∷ log) (release_loop-some ms)

-- What a turn closes was open, and nothing is open after it, unless the program is aborted; the blocks
-- it releases were taken, and if the thread goes on it holds none.
record IsClean (s : Session) : Type 0 where
  closes : closes_open s.fds [] ≡ true
  none_open : s.ended ≢ aborts → open_after s.fds [] ≡ []
  releases : closes_open s.blocks [] ≡ true
  gives_back : s.ended ≡ goes_on → open_after s.blocks [] ≡ []

opened_once : (fd : ℕ) → closes_open (opened fd ∷ closed fd ∷ []) [] ≡ true
opened_once fd = (opened_then_closed (fd ∷ [])).0

closed_once : (fd : ℕ) → open_after (opened fd ∷ closed fd ∷ []) [] ≡ []
closed_once fd = (opened_then_closed (fd ∷ [])).1

left-IsClean :
    (fd : ℕ) (ms : List ℕ) (v : Venc) (ended : Ended)
    → (ended ≢ goes_on) ⊎ (ms ≡ [])
    → IsClean (left (opened fd ∷ closed fd ∷ []) (map opened ms) v ended)
unfolding left
left-IsClean fd ms v ended may = record {
  closes = opened_once fd;
  none_open = λ _. closed_once fd;
  releases = opened-closes ms [];
  gives_back = λ goes. elim may [ inl ends ↦ absurd (ends goes) | inr e ↦ rw e refl ];
}

never_goes_on : (e : ℕ) → returns e ≢ goes_on
never_goes_on e same = cc

encode-IsClean :
    (os : SessionOs) (fd : ℕ) (t : Taken) (v : Venc) (ms : List ℕ)
    → t.blocks ≡ map opened ms
    → t.mb_blks ≡ map some ms
    → IsClean (encode os fd t v)
unfolding encode cleanup
encode-IsClean os fd t v ms takes holds = cleaned (venc_start os.venc v).0 _
  where
    released : t.blocks ++ release_loop t.mb_blks ≡ map opened ms ++ map closed ms
    released = rw (takes, holds, release_loop-some ms) refl

    cleaned : (w : Venc) (f : Option Frames) → IsClean (cleanup os fd t w f)
    cleaned w none = record {
      closes = refl;
      none_open = λ ends. absurd (ends refl);
      releases = rw takes (opened-closes ms []);
      gives_back = λ goes. cc;
    }
    cleaned w (some f) = record {
      closes = opened_once fd;
      none_open = λ _. closed_once fd;
      releases = rw released (opened_then_closed ms).0;
      gives_back = λ _. rw released (opened_then_closed ms).1;
    }

on_queue-IsClean :
    (os : SessionOs) (fd : ℕ) (t : Taken) (v : Venc) (ms : List ℕ) (queued : Ended)
    → t.blocks ≡ map opened ms
    → t.mb_blks ≡ map some ms
    → IsClean (on_queue os fd t v queued)
unfolding on_queue on_stream
on_queue-IsClean os fd t v ms goes_on takes holds = streaming os.stream_on
  where
    streaming : (r : Reply) → IsClean (on_stream os fd t v r)
    streaming (done n) = encode-IsClean os fd t v ms takes holds
    streaming (failed e) = rw takes (left-IsClean fd ms v (returns (suc e)) (inl (never_goes_on _)))
on_queue-IsClean os fd t v ms (returns e) takes holds =
    rw takes (left-IsClean fd ms v (returns e) (inl (never_goes_on e)))
on_queue-IsClean os fd t v ms aborts takes holds =
    rw takes (left-IsClean fd ms v aborts (inl (λ same. cc)))

on_take-IsClean :
    (os : SessionOs) (fd : ℕ) (t : Taken) (v : Venc)
    → IsTaken fd t
    → IsClean (on_take os fd t v t.ended)
unfolding on_take
on_take-IsClean os fd t v taken = elim taken.ends [
  | inl (goes, fds, holds) ↦ rw goes (on_queue-IsClean os fd t v taken.ms _ taken.takes holds)
  | inr (e, back, fds) ↦
      simp (back, fds, taken.takes) (left-IsClean fd taken.ms v (returns e) (inl (never_goes_on e)))
]

on_request-IsClean :
    (os : SessionOs) (fd : ℕ) (v : Venc) (r : Reply) → IsClean (on_request os fd v r)
unfolding on_request
on_request-IsClean os fd v (done n) =
    on_take-IsClean os fd _ v (take_loop-IsTaken fd _ 0 os.buffers)
on_request-IsClean os fd v (failed e) = left-IsClean fd [] v (returns (suc e)) (inr refl)

on_format-IsClean : (os : SessionOs) (fd : ℕ) (v : Venc) (r : Reply) → IsClean (on_format os fd v r)
unfolding on_format
on_format-IsClean os fd v (done n) = on_request-IsClean os fd v os.request
on_format-IsClean os fd v (failed e) = left-IsClean fd [] v goes_on (inr refl)

session-IsClean : (os : SessionOs) (v : Venc) → IsClean (session os v)
unfolding session on_open left
session-IsClean os v = opening os.open_reply
  where
    opening : (r : Reply) → IsClean (on_open os v r)
    opening (done fd) = on_format-IsClean os fd v os.set_format
    opening (failed e) = record {
      closes = refl;
      none_open = λ _. refl;
      releases = refl;
      gives_back = λ _. refl;
    }

-- The same of the whole thread: `streaming_stopped` takes the place of going on.
pub record IsTidy (t : Streamed) : Type 0 where
  pub closes : closes_open t.fds [] ≡ true
  pub none_open : t.aborted ≡ false → open_after t.fds [] ≡ []
  pub releases : closes_open t.blocks [] ≡ true
  pub gives_back : t.streaming_stopped ≡ true → open_after t.blocks [] ≡ []
  pub stopped_exited : t.streaming_stopped ≡ true → t.exited ≡ true

nothing-IsTidy :
    (exited aborted stopped : Bool)
    → (stopped ≡ true → exited ≡ true)
    → IsTidy (nothing exited aborted stopped)
nothing-IsTidy exited aborted stopped ends = record {
  closes = refl;
  none_open = λ _. refl;
  releases = refl;
  gives_back = λ _. refl;
  stopped_exited = ends;
}

-- Two logs one after the other, the first of which leaves nothing open.
log_closes :
    (xs ys : List FdEvent)
    → closes_open xs [] ≡ true
    → open_after xs [] ≡ []
    → closes_open ys [] ≡ true
    → closes_open (xs ++ ys) [] ≡ true
log_closes xs ys h e k = closes_open-append xs ys [] h (rw e k)

log_open :
    (xs ys : List FdEvent)
    → open_after xs [] ≡ []
    → open_after ys [] ≡ []
    → open_after (xs ++ ys) [] ≡ []
log_open xs ys e k = open_after-append xs ys [] ∙ ap (open_after ys) e ∙ k

-- A turn after which the thread is at its end.
last_turn :
    (s : Session) (aborted : Bool)
    → IsClean s
    → (aborted ≡ false → s.ended ≢ aborts)
    → IsTidy (add_session s (nothing true aborted false))
last_turn s aborted clean may = record {
  closes = closes_open-append s.fds [] [] clean.closes refl;
  none_open = λ running. open_after-append s.fds [] [] ∙ clean.none_open (may running);
  releases = closes_open-append s.blocks [] [] clean.releases refl;
  gives_back = λ bad. cc;
  stopped_exited = λ _. refl;
}

then_loop-IsTidy :
    (s : Session) (e : Ended) (t : Streamed)
    → s.ended ≡ e
    → IsClean s
    → IsTidy t
    → IsTidy (then_loop s e t)
unfolding then_loop
then_loop-IsTidy s goes_on t same clean tidy =
    let shut = clean.none_open (λ bad. cc) in
    let back = clean.gives_back same in
    record {
      closes = log_closes s.fds t.fds clean.closes shut tidy.closes;
      none_open = λ running. log_open s.fds t.fds shut (tidy.none_open running);
      releases = log_closes s.blocks t.blocks clean.releases back tidy.releases;
      gives_back = λ stopped. log_open s.blocks t.blocks back (tidy.gives_back stopped);
      stopped_exited = tidy.stopped_exited;
    }
then_loop-IsTidy s (returns e) t same clean tidy = last_turn s false clean (λ _ bad. cc)
then_loop-IsTidy s aborts t same clean tidy = last_turn s true clean (λ bad. absurd cc)

turn-IsTidy :
    (flag signal : Bool) (s : Session) {idle rest : Streamed}
    → IsClean s
    → IsTidy idle
    → IsTidy rest
    → IsTidy (
        if not flag
        then nothing true false true
        else (if not signal then idle else then_loop s s.ended rest))
turn-IsTidy false signal s clean idle rest = nothing-IsTidy true false true (λ _. refl)
turn-IsTidy true false s clean idle rest = idle
turn-IsTidy true true s clean idle rest = then_loop-IsTidy s s.ended _ refl clean rest

-- Whatever the system answers: the streaming thread closes the device only where it is open, and has
-- closed it after each turn, unless the assertion on a frame's block fails and aborts the program; it
-- releases only blocks that it has taken and not released; and if it leaves `streaming_stopped` set,
-- it has ended and holds no block.
pub run_video_stream-IsTidy : (ts : List Turn) (v : Venc) → IsTidy (run_video_stream ts v)
unfolding run_video_stream
run_video_stream-IsTidy [] v = nothing-IsTidy false false false (λ bad. cc)
run_video_stream-IsTidy (t ∷ ts) v =
    turn-IsTidy t.flag t.signal (session t.os v) (session-IsClean t.os v)
      (run_video_stream-IsTidy ts v) (run_video_stream-IsTidy ts (session t.os v).venc)
