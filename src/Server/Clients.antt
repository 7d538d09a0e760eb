-- ===== src/Server/Clients.antt =====
-- The descriptors of the stand-alone program (cgo/main.c), and its one client.
use hardware_os.Base.{
  ℕ, ◌≤◌, ◌≡◌, refl, ◌≢◌, ◌⊎◌, inl, inr, Bool, true, ◌&&◌, ◌||◌, none, some, List, [], ◌∷◌, ◌++◌,
  ◌==◌, arith, if◌then◌else◌, Bool-cases, length,
}
use hardware_os.Base.Int.{ℤ, pos, negsuc}
use hardware_os.Base.Fds.{
  FdEvent, opened, closed, close_fd, open_after, closes_open, fd_list, Leads, Leads-append,
  Leads-nothing,
}
use hardware_os.Base.Os.{Reply, done, failed, is_failed}
use hardware_os.Server.{
  Select, select_failed, ready, Turn, Served, is_set, accept_client, take_client, is_end,
  check_client, after_select, serve_turn, serve, ServerOs, Run, inits, starts, stops, shuts_down,
  finish, listening, with_socket, main,
}

-- The descriptors that the server holds: that of its client, and its own.
abbrev held : ℕ → ℤ → List ℕ
held server client = fd_list client ++ server ∷ []

-- A turn leaves open what it should.
abbrev Keeps : ℕ → ℤ → Served → Type 0
Keeps server client s = Leads s.fds (held server client) (held server s.client)

close_second : (c n : ℕ) (ms : List ℕ) → Leads (closed c ∷ []) (n ∷ c ∷ ms) (n ∷ ms)
close_second c n ms = record { leaves = ground arith; closes = ground arith }

close_first : (c : ℕ) (ms : List ℕ) → Leads (closed c ∷ []) (c ∷ ms) ms
close_first c ms = record { leaves = ground arith; closes = ground arith }

open_one : (n : ℕ) (ms : List ℕ) → Leads (opened n ∷ []) ms (n ∷ ms)
open_one n ms = record { leaves = refl; closes = refl }

accept-Keeps :
    (server : ℕ) (t : Turn) (f : ℕ → Bool) (client : ℤ)
    → let (next, log) = accept_client server t f client in
      Leads log (held server client) (held server next)
unfolding accept_client
accept-Keeps server t f client = elim (Bool-cases (is_set server client f server)) [
  | inl asked ↦ rw asked (taken t.accepted client)
  | inr quiet ↦ rw quiet (Leads-nothing _)
]
  where
    taken :
        (r : Reply) (client : ℤ)
        → let (next, log) = take_client r client in
          Leads log (held server client) (held server next)
    taken (done n) (pos c) =
        Leads-append (opened n ∷ []) (closed c ∷ []) (open_one n _) (close_second c n (server ∷ []))
    taken (done n) (negsuc k) = open_one n _
    taken (failed e) client = Leads-nothing _

check-Keeps :
    (server : ℕ) (client : ℤ) (set : ℕ → Bool) (t : Turn) (a : ℤ × List FdEvent)
    → Leads a.1 (held server client) (held server a.0)
    → Keeps server client (check_client set t a)
unfolding check_client
check-Keeps server client set t (negsuc n, log) h = h
check-Keeps server client set t (pos c, log) h = elim (Bool-cases (set c && is_end t.read)) [
  | inr stays ↦ rw stays h
  | inl gone ↦ rw gone (Leads-append log (closed c ∷ []) h (close_first c (server ∷ [])))
]

after_select-Keeps :
    (server : ℕ) (t : Turn) (client : ℤ) (answer : Select)
    → Keeps server client (after_select server t client answer)
unfolding after_select
after_select-Keeps server t client (select_failed e) = Leads-nothing _
after_select-Keeps server t client (ready f) =
    check-Keeps server client (is_set server client f) t (accept_client server t f client)
      (accept-Keeps server t f client)

serve-Keeps :
    (server : ℕ) (ts : List Turn) (client : ℤ) → Keeps server client (serve server ts client)
unfolding serve serve_turn
serve-Keeps server [] client = Leads-nothing _
serve-Keeps server (t ∷ ts) client =
    joined (serve_turn server t client) (serve server ts (serve_turn server t client).client)
      (after_select-Keeps server t client t.select)
      (serve-Keeps server ts (serve_turn server t client).client)
  where
    joined :
        (s rest : Served)
        → Keeps server client s
        → Keeps server s.client rest
        → Keeps server client (if s.goes_on then record rest { fds = s.fds ++ rest.fds } else s)
    joined s rest h k = elim (Bool-cases s.goes_on) [
      | inl on ↦ simp on (Leads-append s.fds rest.fds h k)
      | inr ends ↦ simp ends h
    ]

-- The program has closed only what was open; and it runs, with at most its socket and a client open, or
-- it has returned, with nothing open.
abbrev pub IsAccounted : Run → Type 0
IsAccounted r =
    (closes_open r.fds [] ≡ true)
    × (((r.ret ≡ none) × (length (open_after r.fds []) ≤ 2) × (r.video ≡ inits ∷ starts ∷ []))
        ⊎ ((r.ret ≢ none)
            × (open_after r.fds [] ≡ [])
            × ((r.video ≡ inits ∷ []) ⊎ (r.video ≡ inits ∷ starts ∷ stops ∷ shuts_down ∷ []))))

close_all :
    (server : ℕ) (client : ℤ)
    → Leads (close_fd client ++ closed server ∷ []) (held server client) []
close_all server (pos c) =
    Leads-append (closed c ∷ []) (closed server ∷ []) (close_first c _) (close_first server [])
close_all server (negsuc n) = close_first server []

held_two : (server : ℕ) (client : ℤ) → length (held server client) ≤ 2
held_two server (pos c) = omega arith
held_two server (negsuc n) = omega arith

finish-IsAccounted :
    (server : ℕ) (s : Served) → Keeps server (negsuc 0) s → IsAccounted (finish server s)
unfolding finish
finish-IsAccounted server s h = elim (Bool-cases s.goes_on) [
  | inl on ↦ simp on (h.closes, inl (refl, rw h.leaves (held_two server s.client), refl))
  | inr ends ↦
      let all =
        Leads-append s.fds (close_fd s.client ++ closed server ∷ []) h
          (close_all server s.client) in
      simp ends (all.closes, inr (λ e. cc, all.leaves, inr refl))
]

listening-IsAccounted :
    (os : ServerOs) (turns : List Turn) (server : ℕ) → IsAccounted (listening os turns server)
unfolding listening
listening-IsAccounted os turns server =
    elim (Bool-cases (is_failed os.fcntl || is_failed os.bind || is_failed os.listen)) [
      | inl bad ↦
          let both = close_first server [] in
          rw bad (both.closes, inr (λ e. cc, both.leaves, inr refl))
      | inr good ↦ rw good (finish-IsAccounted server _ (serve-Keeps server turns (negsuc 0)))
    ]

-- Whatever the system answers: the program closes only descriptors that are open; while it runs, its video is started and at most its socket
-- and one client are open; once it has returned, nothing is open, and the video was stopped and shut
-- down, unless it could not be initialized.
pub main-IsAccounted : (os : ServerOs) (turns : List Turn) → IsAccounted (main os turns)
unfolding main with_socket
main-IsAccounted os turns = go os.video_ret os.socket
  where
    go :
        (v : ℤ) (r : Reply)
        → IsAccounted (elim v [
          | pos n ↦
              if n == 0
              then with_socket os turns r
              else record { ret = some 1; fds = []; video = inits ∷ [] }
          | negsuc n ↦ record { ret = some 1; fds = []; video = inits ∷ [] }
        ])
    go (negsuc n) r = (refl, inr (λ e. cc, refl, inl refl))
    go (pos n) (failed e) = elim (Bool-cases (n == 0)) [
      | inl up ↦ rw up (refl, inr (λ e. cc, refl, inr refl))
      | inr bad ↦ rw bad (refl, inr (λ e. cc, refl, inl refl))
    ]
    go (pos n) (done server) = elim (Bool-cases (n == 0)) [
      | inl up ↦ rw up (listening-IsAccounted os turns server)
      | inr bad ↦ rw bad (refl, inr (λ e. cc, refl, inl refl))
    ]

-- A client that connects, on a descriptor that is not yet in use, is the client after the turn: the
-- answer of `select` for its predecessor does not disconnect it.
serve_turn_accepts :
    (server n : ℕ) (client : ℤ) (t : Turn) (f : ℕ → Bool)
    → t.select ≡ ready f
    → f server ≡ true
    → t.accepted ≡ done n
    → n ≢ server
    → client ≢ pos n
    → (serve_turn server t client).client ≡ pos n
unfolding serve_turn after_select accept_client check_client
serve_turn_accepts server n client t f sel asked acc other fresh = ground arith
