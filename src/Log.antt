-- ===== src/Log.antt =====
-- Logging: the macros of cgo/log.h and the functions of cgo/log_handler.c. What `sprintf` makes of a
-- format and its arguments is the message; the time, `__FILE__` and so on come with it.
use hardware_os.Base.{
  ℕ, ◌≡◌, ◌<◌, Option, none, some, List, [], ◌∷◌, length, ltb, arith, if◌then◌else◌,
}
use hardware_os.Base.Int.{ℤ, pos, negsuc, leb_ℤ}

abbrev pub level_panic : ℤ
level_panic = pos 5

abbrev pub level_error : ℤ
level_error = pos 3

abbrev pub level_warn : ℤ
level_warn = pos 2

abbrev pub level_info : ℤ
level_info = pos 1

abbrev pub level_debug : ℤ
level_debug = pos 0

abbrev pub level_trace : ℤ
level_trace = negsuc 0

-- Where a message comes from.
pub record Place : Type 0 where
  pub filename : List ℕ
  pub funcname : List ℕ
  pub line : ℕ

-- The call of a handler of the firmware, a number.
pub record LogCall : Type 0 where
  pub handler : ℕ
  pub level : ℤ
  pub place : Place
  pub message : List ℕ

-- The pointer of log_handler.c before and after.
unfoldable pub log_set_handler : Option ℕ → Option ℕ → Option ℕ
log_set_handler handler log_handler = handler

unfoldable pub log_message : ℤ → Place → List ℕ → Option ℕ → List LogCall
log_message level place message none = []
log_message level place message (some h) =
    record { handler = h; level = level; place = place; message = message } ∷ []

-- `none` is a write past the end of `msg_buffer`, by the message or its terminator.
unfoldable pub emit_log : ℤ → Place → List ℕ → Option ℕ → Option (List LogCall)
unfolding log_message
emit_log level place message log_handler =
    if ltb (length message) 1024 then some (log_message level place message log_handler) else none

-- LOG_LEVEL is LEVEL_INFO where the build sets no other; the messages of a level below are dropped.
module _ (log_level : ℤ) where
  log_if : ℤ → Place → List ℕ → Option ℕ → Option (List LogCall)
  log_if level place message log_handler =
      if leb_ℤ log_level level then emit_log level place message log_handler else some []

  unfoldable pub log_trace : Place → List ℕ → Option ℕ → Option (List LogCall)
  unfolding log_if
  log_trace place message log_handler = log_if level_trace place message log_handler

  unfoldable pub log_debug : Place → List ℕ → Option ℕ → Option (List LogCall)
  unfolding log_if
  log_debug place message log_handler = log_if level_debug place message log_handler

  unfoldable pub log_info : Place → List ℕ → Option ℕ → Option (List LogCall)
  unfolding log_if
  log_info place message log_handler = log_if level_info place message log_handler

  -- Notices have the level of informations.
  unfoldable pub log_notice : Place → List ℕ → Option ℕ → Option (List LogCall)
  unfolding log_if
  log_notice place message log_handler = log_if level_info place message log_handler

  unfoldable pub log_warn : Place → List ℕ → Option ℕ → Option (List LogCall)
  unfolding log_if
  log_warn place message log_handler = log_if level_warn place message log_handler

  unfoldable pub log_error : Place → List ℕ → Option ℕ → Option (List LogCall)
  unfolding log_if
  log_error place message log_handler = log_if level_error place message log_handler

  unfoldable pub log_panic : Place → List ℕ → Option ℕ → Option (List LogCall)
  unfolding log_if
  log_panic place message log_handler = log_if level_panic place message log_handler

  -- A message that fits the buffer reaches the handler that was set last, if one is and the level is
  -- not below that of the build.
  log_if_reaches :
      (level : ℤ) (place : Place) (message : List ℕ) (before handler : Option ℕ)
      → length message < 1024
      → log_if level place message (log_set_handler handler before)
        ≡ some (if leb_ℤ log_level level then log_message level place message handler else [])
  unfolding log_if emit_log log_set_handler
  log_if_reaches level place message before handler fits = ground arith
