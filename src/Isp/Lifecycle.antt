-- ===== src/Isp/Lifecycle.antt =====
-- The life of the image signal processor (cgo/isp.c): what holds between two operations, and the
-- three phases that it goes through.
use hardware_os.Base.{
  ℕ, ◌≡◌, refl, ap, ap₂, ◌∙◌, Bool, true, Option, none, List, [], ◌∷◌, arith, if◌then◌else◌,
}
use hardware_os.Base.Int.{ℤ, pos, neg}
use hardware_os.Base.Os.{einval}
use hardware_os.Isp.{
  IspConfig, Isp, isp_init, isp_start, isp_stop, isp_shutdown, isp_set_ldch_enabled,
  isp_set_ldch_level, isp_set_ldch_mesh, isp_set_exposure, isp_set_white_balance,
}

-- The operations that may change the state, with their arguments.
pub data IspOp (F : Type 0) : Type 0 where
  init : Option (List ℕ) → Option IspConfig → IspOp F
  start : IspOp F
  stop : IspOp F
  shutdown : IspOp F
  set_ldch_enabled : Bool → IspOp F
  set_ldch_level : ℕ → IspOp F
  set_ldch_mesh : Option (List ℕ) → IspOp F
  set_exposure : Bool → F → F → IspOp F
  set_white_balance : Bool → F → F → IspOp F

pub data Phase : Type 0 where
  off ready active : Phase

-- Between two operations: the processor runs only when it is initialized, the vendor's library is
-- up exactly then, and the lens correction that is reported is the one that is configured.
pub record IsConsistent {F : Type 0} (s : Isp F) : Type 0 where
  pub runs_initialized : s.status.running ≡ true → s.status.initialized ≡ true
  pub library_up : s.aiq_available ≡ s.status.initialized
  pub enabled_reported : s.status.initialized ≡ true → s.status.ldch_enabled ≡ s.config.ldch_enabled
  pub level_reported : s.status.initialized ≡ true → s.status.ldch_level ≡ s.config.ldch_level

abbrev pub phase : {F : Type 0} → Isp F → Phase
phase s = if s.status.initialized then (if s.status.running then active else ready) else off

module _ {F : Type 0} where
  abbrev pub step : IspOp F → Isp F → Isp F × ℤ
  step (init name config) s = isp_init name config s
  step start s = isp_start s
  step stop s = isp_stop s
  step shutdown s = (isp_shutdown s, pos 0)
  step (set_ldch_enabled b) s = isp_set_ldch_enabled b s
  step (set_ldch_level n) s = isp_set_ldch_level n s
  step (set_ldch_mesh p) s = isp_set_ldch_mesh p s
  step (set_exposure a t g) s = isp_set_exposure a t g s
  step (set_white_balance a r b) s = isp_set_white_balance a r b s

  -- What an operation does to the phase, and what it returns.
  abbrev pub phase_step : IspOp F → Phase → Phase × ℤ
  phase_step (init name config) off = (ready, pos 0)
  phase_step (init name config) p = (p, pos 0)
  phase_step start off = (off, neg einval)
  phase_step start _ = (active, pos 0)
  phase_step stop off = (off, pos 0)
  phase_step stop _ = (ready, pos 0)
  phase_step shutdown _ = (off, pos 0)
  phase_step (set_ldch_mesh none) p = (p, neg einval)
  phase_step _ off = (off, neg einval)
  phase_step _ p = (p, pos 0)

  -- Every operation keeps the state consistent.
  step-IsConsistent : (op : IspOp F) (s : Isp F) → IsConsistent s → IsConsistent (step op s).0
  unfolding isp_init isp_start isp_stop isp_shutdown isp_set_ldch_enabled isp_set_ldch_level
      isp_set_ldch_mesh isp_set_exposure isp_set_white_balance
  step-IsConsistent op s v = ground arith

  -- On a consistent state the operations are those of a machine with three phases, off, ready and
  -- active: each moves the phase, and returns, as `phase_step` says.
  step-phase_step :
      (op : IspOp F) (s : Isp F)
      → IsConsistent s
      → (phase (step op s).0, (step op s).1) ≡ phase_step op (phase s)
  unfolding isp_init isp_start isp_stop isp_shutdown isp_set_ldch_enabled isp_set_ldch_level
      isp_set_ldch_mesh isp_set_exposure isp_set_white_balance
  step-phase_step op s v = ground arith

  abbrev pub run : List (IspOp F) → Isp F → List ℤ
  run [] s = []
  run (op ∷ ops) s = (step op s).1 ∷ run ops (step op s).0

  abbrev pub run_phase : List (IspOp F) → Phase → List ℤ
  run_phase [] p = []
  run_phase (op ∷ ops) p = (phase_step op p).1 ∷ run_phase ops (phase_step op p).0

  -- Whatever operations run in whatever order, from a consistent state, they return what the machine
  -- with three phases returns.
  pub run-run_phase :
      (ops : List (IspOp F)) (s : Isp F) → IsConsistent s → run ops s ≡ run_phase ops (phase s)
  run-run_phase [] s v = refl
  run-run_phase (op ∷ ops) s v =
      let e = step-phase_step op s v in
      ap₂ (λ (r : ℤ) (rest : List ℤ). r ∷ rest) (ap (λ (t : Phase × ℤ). t.1) e)
        (run-run_phase ops (step op s).0 (step-IsConsistent op s v)
          ∙ ap (λ (t : Phase × ℤ). run_phase ops t.0) e)
