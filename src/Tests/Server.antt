-- ===== src/Tests/Server.antt =====
-- The stand-alone program at concrete inputs (cgo/main.c).
use hardware_os.Base.{◌≡◌, refl, some, List, [], ◌∷◌, ◌==◌}
use hardware_os.Base.Int.{pos}
use hardware_os.Base.Os.{done, failed}
use hardware_os.Base.Fds.{opened, closed}
use hardware_os.Server.{Turn, ready, select_failed, ServerOs, serve_turn, serve, main}
use hardware_os.Server.Clients.{IsAccounted, main-IsAccounted}

-- The socket is 3; the first client is 4, the second 5.
abbrev good_os : ServerOs
good_os = record {
  video_ret = pos 0;
  socket = done 3;
  fcntl = done 0;
  bind = done 0;
  listen = done 0;
}

-- A client connects, a second one takes its place and hangs up, and then `select` fails.
abbrev server_turns : List Turn
server_turns =
    record { select = ready (λ n. n == 3); accepted = done 4; read = pos 0 }
    ∷ record { select = ready (λ n. n == 3); accepted = done 5; read = pos 0 }
    ∷ record { select = ready (λ n. n == 5); accepted = failed 10; read = pos 0 }
    ∷ record { select = select_failed 8; accepted = failed 10; read = pos 0 }
    ∷ []

served_all : main good_os server_turns ≡ record {
  ret = some 0;
  fds = opened 3 ∷ opened 4 ∷ opened 5 ∷ closed 4 ∷ closed 5 ∷ closed 3 ∷ [];
  video = (main good_os server_turns).video;
}
unfolding main serve serve_turn
served_all = refl

main-IsAccounted_example : IsAccounted (main good_os server_turns)
main-IsAccounted_example = main-IsAccounted good_os server_turns
