-- ===== src/Ui/Hold/Once.antt =====
-- A press-and-hold button fires once a hold, and only after its time (eez/src/ui/actions.c).
use hardware_os.Base.{
  ℕ, suc, ◌+◌, ◌*◌, ◌^◌, ◌≤◌, ◌<◌, ◌≡◌, ◌↔◌, Bool, true, false, List, [], ◌∷◌, ◌++◌, arith,
}
use hardware_os.Ui.Hold.{
  Event, pressing, released, Effect, hide_button, show_spinner, rpc, set_label, HoldState,
  HoldConfig, handle_hold_action,
}

-- How many remote calls a list of effects makes.
abbrev pub rpcs : List Effect → ℕ
rpcs [] = 0
rpcs (rpc m ∷ out) = suc (rpcs out)
rpcs (_ ∷ out) = rpcs out

rpcs-append : (xs ys : List Effect) → rpcs (xs ++ ys) ≡ rpcs xs + rpcs ys
rpcs-append [] ys = omega arith
rpcs-append (rpc m ∷ xs) ys = omega (arith, rpcs-append xs ys)
rpcs-append (hide_button ∷ xs) ys = rpcs-append xs ys
rpcs-append (show_spinner ∷ xs) ys = rpcs-append xs ys
rpcs-append (set_label t ∷ xs) ys = rpcs-append xs ys

abbrev free : Bool → ℕ
free true = 0
free false = 1

-- One event of a button: when it comes, the clock, and what it is.
pub record Input : Type 0 where
  pub now : ℕ
  pub elapsed : ℕ → ℕ
  pub event : Event

abbrev pub releases : List Input → ℕ
releases [] = 0
releases (i ∷ is) = elim i.event [ released ↦ suc (releases is) | _ ↦ releases is ]

abbrev pub run : HoldConfig → HoldState → List Input → HoldState × List Effect
run config s [] = (s, [])
run config s (i ∷ is) =
    let (s', out) = handle_hold_action i.now i.elapsed i.event config s in
    let (s'', rest) = run config s' is in (s'', out ++ rest)

-- A remote call is made exactly when a press is held, the time is over and the lock is open: as
-- long as the elapsed time is read below 2 ^ 31 ms, that is a hold of the configured time.
handle_hold_action_fires :
    (now : ℕ) (elapsed : ℕ → ℕ) (e : Event) (config : HoldConfig) (s : HoldState)
    → elapsed s.start_time < 2 ^ 31
    → config.hold_time_seconds * 1000 < 2 ^ 31
    → (rpcs (handle_hold_action now elapsed e config s).1 ≡ 1) ↔ (
        (e ≡ pressing)
        × (s.lock ≡ false)
        × (config.hold_time_seconds * 1000 ≤ elapsed s.start_time))
unfolding handle_hold_action
handle_hold_action_fires now elapsed e config s small short = ground arith

hold_step :
    (now : ℕ) (elapsed : ℕ → ℕ) (e : Event) (config : HoldConfig) (s : HoldState)
    → let (s', out) = handle_hold_action now elapsed e config s in
      rpcs out + free s'.lock ≤ elim e [ released ↦ 1 | _ ↦ 0 ] + free s.lock
unfolding handle_hold_action
hold_step now elapsed e config s = ground arith

run_count :
    (config : HoldConfig) (s : HoldState) (is : List Input)
    → rpcs (run config s is).1 + free (run config s is).0.lock ≤ releases is + free s.lock
run_count config s [] = omega arith
run_count config s (i ∷ is) =
    let (s', out) = handle_hold_action i.now i.elapsed i.event config s in
    ground (
      arith,
      rpcs-append out (run config s' is).1,
      hold_step i.now i.elapsed i.event config s,
      run_count config s' is,
    )

-- Over any sequence of events and any clock, from any state, a button makes at most one remote call
-- more than it is released.
pub run_once :
    (config : HoldConfig) (s : HoldState) (is : List Input)
    → rpcs (run config s is).1 ≤ releases is + 1
run_once config s is = ground (arith, run_count config s is)
