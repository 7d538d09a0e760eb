-- ===== src/Handlers.antt =====
-- The handlers that the rest of the firmware sets, and the way of an event to them: cgo/ctrl.c, with
-- the pointers of cgo/screen.c and eez/src/ui/ui.c. A function of the firmware is a number.
use hardware_os.Base.{
  ℕ, ◌≡◌, refl, ◌∙◌, ◌⊎◌, inl, inr, ◌||◌, arith, Bool-cases, Bool, true, false, not, Option, none,
  some, List, [], ◌∷◌, if◌then◌else◌,
}

-- The pointers of ctrl.c, `none` for NULL; whether that of screen.c points at `jetkvm_indev_wrapper`,
-- and that of ui.c at `jetkvm_call_rpc_handler`, the only functions that they are set to.
pub record Handlers : Type 0 where
  pub video_handler : Option ℕ
  pub video_state_handler : Option ℕ
  pub rpc_handler : Option ℕ
  pub jetkvm_indev_handler : Option ℕ
  pub indev_handler : Bool
  pub ui_rpc_handler : Bool

-- The values before `main`.
abbrev pub no_handlers : Handlers
no_handlers = record {
  video_handler = none;
  video_state_handler = none;
  rpc_handler = none;
  jetkvm_indev_handler = none;
  indev_handler = false;
  ui_rpc_handler = false;
}

unfoldable pub jetkvm_set_video_handler : Option ℕ → Handlers → Handlers
jetkvm_set_video_handler handler s = record s { video_handler = handler }

unfoldable pub jetkvm_set_video_state_handler : Option ℕ → Handlers → Handlers
jetkvm_set_video_state_handler handler s = record s { video_state_handler = handler }

unfoldable pub jetkvm_set_rpc_handler : Option ℕ → Handlers → Handlers
jetkvm_set_rpc_handler handler s = record s { rpc_handler = handler }

unfoldable pub lvgl_set_indev_handler : Handlers → Handlers
lvgl_set_indev_handler s = record s { indev_handler = true }

unfoldable pub jetkvm_set_indev_handler : Option ℕ → Handlers → Handlers
unfolding lvgl_set_indev_handler
jetkvm_set_indev_handler handler s =
    lvgl_set_indev_handler (record s { jetkvm_indev_handler = handler })

-- The call of it at the end of `lvgl_init`.
unfoldable pub ui_set_rpc_handler : Handlers → Handlers
ui_set_rpc_handler s = record s { ui_rpc_handler = true }

-- A function of the firmware that is called, and with what.
pub record Called (A : Type 0) : Type 0 where
  pub handler : ℕ
  pub argument : A

abbrev pub call : {A : Type 0} → Option ℕ → A → Option (Called A)
call none a = none
call (some h) a = some (record { handler = h; argument = a })

unfoldable pub jetkvm_indev_wrapper : ℕ → Handlers → Option (Called ℕ)
jetkvm_indev_wrapper code s = call s.jetkvm_indev_handler code

-- `code` is the code of the event.
unfoldable pub handle_indev_event : ℕ → Handlers → Option (Called ℕ)
unfolding jetkvm_indev_wrapper
handle_indev_event code s = if not s.indev_handler then none else jetkvm_indev_wrapper code s

-- The argument is the method with its parameters.
unfoldable pub jetkvm_call_rpc_handler :
    List ℕ × List ℕ → Handlers → Option (Called (List ℕ × List ℕ))
jetkvm_call_rpc_handler rpc s = call s.rpc_handler rpc

unfoldable pub ui_call_rpc_handler : List ℕ × List ℕ → Handlers → Option (Called (List ℕ × List ℕ))
unfolding jetkvm_call_rpc_handler
ui_call_rpc_handler rpc s = if not s.ui_rpc_handler then none else jetkvm_call_rpc_handler rpc s

pub data HandlerOp : Type 0 where
  sets_video : Option ℕ → HandlerOp
  sets_video_state : Option ℕ → HandlerOp
  sets_rpc : Option ℕ → HandlerOp
  sets_indev : Option ℕ → HandlerOp
  starts_display : HandlerOp

handler_op : HandlerOp → Handlers → Handlers
handler_op (sets_video h) s = jetkvm_set_video_handler h s
handler_op (sets_video_state h) s = jetkvm_set_video_state_handler h s
handler_op (sets_rpc h) s = jetkvm_set_rpc_handler h s
handler_op (sets_indev h) s = jetkvm_set_indev_handler h s
handler_op starts_display s = ui_set_rpc_handler s

unfoldable pub handler_ops : List HandlerOp → Handlers → Handlers
unfolding handler_op
handler_ops [] s = s
handler_ops (op ∷ ops) s = handler_ops ops (handler_op op s)

-- What was set last, and whether the display was started, given what was so before.
abbrev pub last_indev : List HandlerOp → Option ℕ → Option ℕ
last_indev [] h = h
last_indev (sets_indev g ∷ ops) h = last_indev ops g
last_indev (_ ∷ ops) h = last_indev ops h

abbrev pub last_rpc : List HandlerOp → Option ℕ → Option ℕ
last_rpc [] h = h
last_rpc (sets_rpc g ∷ ops) h = last_rpc ops g
last_rpc (_ ∷ ops) h = last_rpc ops h

abbrev pub is_started : List HandlerOp → Bool
is_started [] = false
is_started (starts_display ∷ ops) = true
is_started (_ ∷ ops) = is_started ops

-- An unset pointer of screen.c goes with an unset handler.
abbrev IsWired : Handlers → Type 0
IsWired s = (s.indev_handler ≡ true) ⊎ (s.jetkvm_indev_handler ≡ none)

reaches_indev :
    (ops : List HandlerOp) (s : Handlers) (code : ℕ)
    → IsWired s
    → handle_indev_event code (handler_ops ops s)
      ≡ call (last_indev ops s.jetkvm_indev_handler) code
unfolding handler_ops handle_indev_event jetkvm_set_video_handler jetkvm_set_video_state_handler
    jetkvm_set_rpc_handler jetkvm_set_indev_handler ui_set_rpc_handler
reaches_indev [] s code (inl set) = simp set refl
reaches_indev [] s code (inr unset) = elim (Bool-cases s.indev_handler) [
  | inl set ↦ simp set refl
  | inr off ↦ simp (off, unset) refl
]
reaches_indev (sets_video h ∷ ops) s code wired = reaches_indev ops _ code wired
reaches_indev (sets_video_state h ∷ ops) s code wired = reaches_indev ops _ code wired
reaches_indev (sets_rpc h ∷ ops) s code wired = reaches_indev ops _ code wired
reaches_indev (sets_indev h ∷ ops) s code wired = reaches_indev ops _ code (inl refl)
reaches_indev (starts_display ∷ ops) s code wired = reaches_indev ops _ code wired

reaches_rpc :
    (ops : List HandlerOp) (s : Handlers) (rpc : List ℕ × List ℕ)
    → ui_call_rpc_handler rpc (handler_ops ops s)
      ≡ (if s.ui_rpc_handler || is_started ops then call (last_rpc ops s.rpc_handler) rpc else none)
unfolding handler_ops ui_call_rpc_handler jetkvm_set_video_handler jetkvm_set_video_state_handler
    jetkvm_set_rpc_handler jetkvm_set_indev_handler ui_set_rpc_handler
reaches_rpc [] s rpc = ground arith
reaches_rpc (sets_video h ∷ ops) s rpc = reaches_rpc ops _ rpc
reaches_rpc (sets_video_state h ∷ ops) s rpc = reaches_rpc ops _ rpc
reaches_rpc (sets_rpc h ∷ ops) s rpc = reaches_rpc ops _ rpc
reaches_rpc (sets_indev h ∷ ops) s rpc = reaches_rpc ops _ rpc
reaches_rpc (starts_display ∷ ops) s rpc = reaches_rpc ops _ rpc ∙ ground arith

-- After any handlers were set, in any order with the start of the display: an input event reaches the
-- handler for it that was set last, if one is; and a remote call of a screen reaches the handler that
-- was set last, if one is and the display was started.
handlers_reached :
    (ops : List HandlerOp) (code : ℕ) (rpc : List ℕ × List ℕ)
    → let s = handler_ops ops no_handlers in
      (handle_indev_event code s ≡ call (last_indev ops none) code)
      × (ui_call_rpc_handler rpc s
          ≡ (if is_started ops then call (last_rpc ops none) rpc else none))
handlers_reached ops code rpc =
    (reaches_indev ops no_handlers code (inr refl), reaches_rpc ops no_handlers rpc)
