-- ===== src/Camera/Descriptors.antt =====
-- The descriptors of the camera (cgo/camera.c): what is open is what the state holds, also after an
-- error.
use hardware_os.Base.{
  ℕ, ◌≡◌, refl, ap, ◌∙◌, inl, inr, Bool, true, false, Option, List, [], ◌∷◌, ◌++◌, arith,
  Bool-cases,
}
use hardware_os.Base.Int.{ℤ, negsuc, is_neg}
use hardware_os.Base.Os.{Reply, fd_of, is_failed, neg_errno}
use hardware_os.Base.Fds.{
  FdEvent, close_fd, open_fd, open_after, open_after-append, closes_open, closes_open-append,
  fd_list,
}
use hardware_os.Camera.{
  CameraConfig, Camera, Outcome, InitOs, camera_alloc_buffers, camera_free_buffers, camera_init,
  init_error, finish_init, init_formats, after_close, camera_config_of, MapEvent,
}
use hardware_os.Camera.Streaming.{
  StreamOs, camera_start_streaming, camera_stop_streaming, camera_shutdown, camera_set_orientation,
}

-- The descriptors that the state holds.
abbrev pub held : Camera → List ℕ
held s = fd_list s.mipi_fd ++ fd_list s.sensor_fd

-- Between two operations: a descriptor that is not open is -1, both are -1 while the camera is not
-- initialized, it streams only when it is initialized, and its thread is to run exactly then.
pub record IsSound (s : Camera) : Type 0 where
  pub mipi_closed : is_neg s.mipi_fd ≡ true → s.mipi_fd ≡ negsuc 0
  pub sensor_closed : is_neg s.sensor_fd ≡ true → s.sensor_fd ≡ negsuc 0
  pub mipi_off : s.status.initialized ≡ false → s.mipi_fd ≡ negsuc 0
  pub sensor_off : s.status.initialized ≡ false → s.sensor_fd ≡ negsuc 0
  pub streams_initialized : s.status.streaming ≡ true → s.status.initialized ≡ true
  pub thread : s.running ≡ s.status.streaming

-- The allocation touches nothing but the buffers.
record IsFramed (s t : Camera) : Type 0 where
  mipi_same : t.mipi_fd ≡ s.mipi_fd
  sensor_same : t.sensor_fd ≡ s.sensor_fd
  status_same : t.status ≡ s.status
  running_same : t.running ≡ s.running

alloc_frame : (os : InitOs) (s : Camera) → IsFramed s (camera_alloc_buffers os s).0
unfolding camera_alloc_buffers
alloc_frame os s = ground arith

free_frame : (s : Camera) → IsFramed s (camera_free_buffers s).0
unfolding camera_free_buffers
free_frame s = record {
  mipi_same = refl;
  sensor_same = refl;
  status_same = refl;
  running_same = refl;
}

-- The state is sound and what is open is what it holds.
record IsKept (before : List ℕ) (o : Outcome) : Type 0 where
  sound : IsSound o.camera
  open_held : open_after o.fds before ≡ held o.camera
  closes : closes_open o.fds before ≡ true

-- A state on its way through `camera_init`, with what it has opened so far.
record IsOpening (before : List ℕ) (fds : List FdEvent) (t : Camera) : Type 0 where
  mipi_closed : is_neg t.mipi_fd ≡ true → t.mipi_fd ≡ negsuc 0
  sensor_closed : is_neg t.sensor_fd ≡ true → t.sensor_fd ≡ negsuc 0
  not_yet : t.status.initialized ≡ false
  still : t.status.streaming ≡ false
  no_thread : t.running ≡ false
  open_held : open_after fds before ≡ held t
  closes : closes_open fds before ≡ true

close_held : (s : Camera) → open_after (close_fd s.mipi_fd ++ close_fd s.sensor_fd) (held s) ≡ []
close_held s = ground arith

closes_held :
    (s : Camera) → closes_open (close_fd s.mipi_fd ++ close_fd s.sensor_fd) (held s) ≡ true
closes_held s = ground arith

module _ (before : List ℕ) (fds : List FdEvent) where
  error-IsKept :
      (maps : List MapEvent) (ret : ℤ) (t : Camera)
      → IsOpening before fds t
      → IsKept before (init_error fds maps ret t)
  unfolding init_error
  error-IsKept maps ret t v = record {
    sound = ground (arith, v.mipi_closed, v.sensor_closed, v.not_yet, v.still, v.no_thread);
    open_held =
        open_after-append fds (close_fd t.mipi_fd ++ close_fd t.sensor_fd) before
        ∙ ap (open_after (close_fd t.mipi_fd ++ close_fd t.sensor_fd)) v.open_held
        ∙ close_held t
        ∙ nothing_held t;
    closes =
        closes_open-append fds (close_fd t.mipi_fd ++ close_fd t.sensor_fd) before v.closes
          (rw v.open_held (closes_held t));
  }
    where
      nothing_held :
          (t : Camera)
          → []
            ≡ held
                (record t { mipi_fd = after_close t.mipi_fd; sensor_fd = after_close t.sensor_fd })
      nothing_held t = ground arith

  alloc-IsOpening :
      (os : InitOs) (t : Camera)
      → IsOpening before fds t
      → IsOpening before fds (camera_alloc_buffers os t).0
  alloc-IsOpening os t v = ground (arith, alloc_frame os t, v.mipi_closed, v.sensor_closed)

  finish-IsKept :
      (r : Camera × ℤ × List MapEvent)
      → IsOpening before fds r.0
      → ((is_neg r.0.mipi_fd ≡ false))
      → IsKept before (finish_init fds r)
  unfolding finish_init
  finish-IsKept (t, ret, maps) v there = elim (Bool-cases (is_neg ret)) [
    | inl e ↦ rw e (error-IsKept maps ret t v)
    | inr e ↦ rw e (record { sound = ground arith; open_held = v.open_held; closes = v.closes })
  ]

  formats-IsKept :
      (os : InitOs) (t : Camera)
      → IsOpening before fds t
      → is_neg t.mipi_fd ≡ false
      → IsKept before (init_formats os fds t)
  unfolding init_formats
  formats-IsKept os t v there = elim (Bool-cases (is_failed os.mipi_format)) [
    | inl e ↦ rw e (error-IsKept [] (neg_errno os.mipi_format) t v)
    | inr e ↦ rw e (
        finish-IsKept (camera_alloc_buffers os t) (alloc-IsOpening os t v)
          (ground (arith, alloc_frame os t)))
  ]

-- The state in which `camera_init` has opened the devices.
abbrev opened_state : InitOs → Option CameraConfig → Camera → Camera
opened_state os config s = record s {
  config = camera_config_of config;
  sensor_fd = fd_of os.sensor_open;
  mipi_fd = fd_of os.mipi_open;
}

open-IsOpening :
    (os : InitOs) (config : Option CameraConfig) (s : Camera)
    → IsSound s
    → s.status.initialized ≡ false
    → IsOpening (held s) (open_fd os.sensor_open ++ open_fd os.mipi_open) (opened_state os config s)
open-IsOpening os config s v e = ground arith

init-IsKept :
    (os : InitOs) (config : Option CameraConfig) (s : Camera)
    → IsSound s
    → IsKept (held s) (camera_init os config s)
unfolding camera_init
init-IsKept os config s v =
    let fds = open_fd os.sensor_open ++ open_fd os.mipi_open in
    elim (Bool-cases s.status.initialized) [
      | inl e ↦ simp e (record { sound = v; open_held = refl; closes = refl })
      | inr e ↦ elim (Bool-cases (is_failed os.mipi_open)) [
        | inl f ↦
            simp (e, f)
              (error-IsKept (held s) fds [] (neg_errno os.mipi_open) (opened_state os config s)
                (open-IsOpening os config s v e))
        | inr f ↦
            simp (e, f)
              (formats-IsKept (held s) fds os (opened_state os config s)
                (open-IsOpening os config s v e) (ground arith))
      ]
    ]

shutdown-IsKept : (s : Camera) → IsSound s → IsKept (held s) (camera_shutdown s)
unfolding camera_shutdown
shutdown-IsKept s v = ground (arith, free_frame s, free_frame (camera_stop_streaming s).0)

-- The operations that may change the state, with their arguments.
pub data CameraOp : Type 0 where
  init : InitOs → Option CameraConfig → CameraOp
  shutdown : CameraOp
  start_streaming : StreamOs → Option ℕ → Option ℕ → CameraOp
  stop_streaming : CameraOp
  set_orientation : Reply → Reply → Bool → Bool → CameraOp

-- The state after an operation, and the descriptors that it opened and closed.
abbrev pub step : CameraOp → Camera → Camera × List FdEvent
step (init os config) s = ((camera_init os config s).camera, (camera_init os config s).fds)
step shutdown s = ((camera_shutdown s).camera, (camera_shutdown s).fds)
step (start_streaming os callback user_data) s =
    ((camera_start_streaming os callback user_data s).0, [])
step stop_streaming s = ((camera_stop_streaming s).0, [])
step (set_orientation h v mirror flip) s = ((camera_set_orientation h v mirror flip s).0, [])

step-IsSound : (op : CameraOp) (s : Camera) → IsSound s → IsSound (step op s).0
unfolding camera_start_streaming camera_stop_streaming camera_set_orientation
step-IsSound (init os config) s v = (init-IsKept os config s v).sound
step-IsSound shutdown s v = (shutdown-IsKept s v).sound
step-IsSound (start_streaming os callback user_data) s v = ground arith
step-IsSound stop_streaming s v = ground arith
step-IsSound (set_orientation h w mirror flip) s v = ground arith

step-held :
    (op : CameraOp) (s : Camera)
    → IsSound s
    → (open_after (step op s).1 (held s) ≡ held (step op s).0)
      × (closes_open (step op s).1 (held s) ≡ true)
unfolding camera_start_streaming camera_stop_streaming camera_set_orientation
step-held (init os config) s v =
    let kept = init-IsKept os config s v in (kept.open_held, kept.closes)
step-held shutdown s v = let kept = shutdown-IsKept s v in (kept.open_held, kept.closes)
step-held (start_streaming os callback user_data) s v = ground arith
step-held stop_streaming s v = ground arith
step-held (set_orientation h w mirror flip) s v = ground arith

abbrev pub run : List CameraOp → Camera → Camera × List FdEvent
run [] s = (s, [])
run (op ∷ ops) s = let (t, log) = step op s in let (t', rest) = run ops t in (t', log ++ rest)

-- Whatever operations run from a sound state, and whatever the kernel answers, the state stays
-- sound, the descriptors that are open are those that it holds, so that none is lost on an error
-- path, and each descriptor that is closed is open then, so that none is closed twice.
pub run-held :
    (ops : List CameraOp) (s : Camera)
    → IsSound s
    → IsSound (run ops s).0
      × (open_after (run ops s).1 (held s) ≡ held (run ops s).0)
      × (closes_open (run ops s).1 (held s) ≡ true)
run-held [] s v = (v, refl, refl)
run-held (op ∷ ops) s v =
    let (t, log) = step op s in
    let (sound, kept, rest) = run-held ops t (step-IsSound op s v) in
    let (here, closes) = step-held op s v in
    (
      sound,
      open_after-append log (run ops t).1 (held s) ∙ ap (open_after (run ops t).1) here ∙ kept,
      closes_open-append log (run ops t).1 (held s) closes (rw here rest),
    )
