-- ===== src/Server.antt =====
-- The stand-alone program: `main` of targets/rv1106/native/cgo/main.c. It starts the video, listens
-- on a socket, and keeps at most one client. What the system answers is an argument, and the main
-- loop follows a list of turns, whose end is the program still in its loop.
pub mod Clients
use hardware_os.Base.{
  ℕ, Bool, true, false, not, ◌&&◌, ◌||◌, Option, none, some, List, [], ◌∷◌, ◌++◌, ◌==◌,
  if◌then◌else◌,
}
use hardware_os.Base.Int.{ℤ, pos, negsuc, is_neg}
use hardware_os.Base.Fds.{FdEvent, opened, closed, close_fd}
use hardware_os.Base.Os.{Reply, done, failed, is_failed, eintr}

-- What `select` answers: an error, or which of the watched descriptors are ready.
pub data Select : Type 0 where
  select_failed : ℕ → Select
  ready : (ℕ → Bool) → Select

-- One turn of the main loop: the answers of `select`, of `accept` and of `read`.
pub record Turn : Type 0 where
  pub select : Select
  pub accepted : Reply
  pub read : ℤ

-- `client_fd` after a turn, what was opened and closed, and whether the loop goes on.
pub record Served : Type 0 where
  pub client : ℤ
  pub fds : List FdEvent
  pub goes_on : Bool

abbrev pub is_client : ℤ → ℕ → Bool
is_client (pos c) n = n == c
is_client (negsuc k) n = false

-- FD_ISSET after `select`: only what was watched can be set.
abbrev pub is_set : ℕ → ℤ → (ℕ → Bool) → ℕ → Bool
is_set server client f n = (n == server || is_client client n) && f n

take_client : Reply → ℤ → ℤ × List FdEvent
take_client (done n) client = (pos n, opened n ∷ close_fd client)
take_client (failed e) client = (client, [])

-- The new connection, if there is one.
unfoldable pub accept_client : ℕ → Turn → (ℕ → Bool) → ℤ → ℤ × List FdEvent
unfolding take_client
accept_client server t f client =
    if is_set server client f server then take_client t.accepted client else (client, [])

-- `read(...) <= 0`
abbrev pub is_end : ℤ → Bool
is_end (pos n) = n == 0
is_end (negsuc n) = true

-- `set` is FD_ISSET as `select` left it.
check_client : (ℕ → Bool) → Turn → ℤ × List FdEvent → Served
check_client set t (pos c, log) =
    if set c && is_end t.read
    then record { client = negsuc 0; fds = log ++ closed c ∷ []; goes_on = true }
    else record { client = pos c; fds = log; goes_on = true }
check_client set t (negsuc n, log) = record { client = negsuc n; fds = log; goes_on = true }

after_select : ℕ → Turn → ℤ → Select → Served
unfolding check_client accept_client
after_select server t client (select_failed e) = record {
  client = client;
  fds = [];
  goes_on = e == eintr;
}
after_select server t client (ready f) =
    check_client (is_set server client f) t (accept_client server t f client)

unfoldable pub serve_turn : ℕ → Turn → ℤ → Served
unfolding after_select
serve_turn server t client = after_select server t client t.select

-- The main loop.
unfoldable pub serve : ℕ → List Turn → ℤ → Served
serve server [] client = record { client = client; fds = []; goes_on = true }
serve server (t ∷ ts) client =
    let s = serve_turn server t client in
    let rest = serve server ts s.client in
    if s.goes_on then record rest { fds = s.fds ++ rest.fds } else s

-- What the program does with the video.
pub data VideoCall : Type 0 where
  inits : VideoCall
  starts : VideoCall
  stops : VideoCall
  shuts_down : VideoCall

-- What the program has done: the result of `main` if it has returned.
pub record Run : Type 0 where
  pub ret : Option ℕ
  pub fds : List FdEvent
  pub video : List VideoCall

-- `fcntl` stands for the two calls of it together.
pub record ServerOs : Type 0 where
  pub video_ret : ℤ
  pub socket : Reply
  pub fcntl : Reply
  pub bind : Reply
  pub listen : Reply

abbrev started : List VideoCall
started = inits ∷ starts ∷ []

abbrev stopped : List VideoCall
stopped = inits ∷ starts ∷ stops ∷ shuts_down ∷ []

-- A return before the main loop.
abbrev refuse : List FdEvent → Run
refuse fds = record { ret = some 1; fds = fds; video = stopped }

-- After the main loop: the client and then the server are closed.
finish : ℕ → Served → Run
finish server s =
    if s.goes_on
    then record { ret = none; fds = opened server ∷ s.fds; video = started }
    else record {
      ret = some 0;
      fds = opened server ∷ (s.fds ++ (close_fd s.client ++ closed server ∷ []));
      video = stopped;
    }

listening : ServerOs → List Turn → ℕ → Run
unfolding finish
listening os turns server =
    if is_failed os.fcntl || is_failed os.bind || is_failed os.listen
    then refuse (opened server ∷ closed server ∷ [])
    else finish server (serve server turns (negsuc 0))

with_socket : ServerOs → List Turn → Reply → Run
unfolding listening
with_socket os turns (failed e) = refuse []
with_socket os turns (done n) = listening os turns n

unfoldable pub main : ServerOs → List Turn → Run
unfolding with_socket
main os turns = elim os.video_ret [
  | pos n ↦
      if n == 0
      then with_socket os turns os.socket
      else record { ret = some 1; fds = []; video = inits ∷ [] }
  | negsuc n ↦ record { ret = some 1; fds = []; video = inits ∷ [] }
]
