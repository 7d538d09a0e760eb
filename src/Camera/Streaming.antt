-- ===== src/Camera/Streaming.antt =====
-- Streaming from the camera, its controls and its shutdown (targets/rv1106/native/cgo/camera.c).
use hardware_os.Base.{
  ℕ, zero, suc, ◌+◌, Bool, true, false, not, Option, none, List, [], ◌++◌, if◌then◌else◌,
}
use hardware_os.Base.Int.{ℤ, pos, negsuc, neg, is_neg}
use hardware_os.Base.Fds.{close_fd}
use hardware_os.Base.Os.{Reply, done, failed, neg_errno, is_failed, einval, enomem}
use hardware_os.Camera.{Camera, Outcome, MapEvent, after_close, camera_free_buffers}

-- What the kernel answers when a stream starts: VIDIOC_QBUF for each buffer, VIDIOC_STREAMON, and
-- whether the thread is created.
pub record StreamOs : Type 0 where
  pub qbuf : ℕ → Reply
  pub stream_on : Reply
  pub thread_created : Bool

pub queue_loop : StreamOs → ℕ → ℕ → ℤ
queue_loop os zero i = pos 0
queue_loop os (suc k) i = elim (os.qbuf i) [
  | failed e ↦ negsuc e
  | done r ↦ queue_loop os k (i + 1)
]

unfoldable pub camera_queue_buffers : StreamOs → Camera → ℤ
unfolding queue_loop
camera_queue_buffers os s = queue_loop os s.buffer_count 0

-- From VIDIOC_STREAMON on.
stream_on : StreamOs → Camera → Camera × ℤ
stream_on os s =
    if is_failed os.stream_on
    then (s, neg_errno os.stream_on)
    else (if not os.thread_created then (record s { running = false }, neg enomem) else (
      record s { running = true; status = record s.status { streaming = true; frame_count = 0 } },
      pos 0,
    ))

unfoldable pub camera_start_streaming : StreamOs → Option ℕ → Option ℕ → Camera → Camera × ℤ
unfolding stream_on
camera_start_streaming os callback user_data s =
    if not s.status.initialized
    then (s, neg einval)
    else (if s.status.streaming
        then (s, pos 0)
        else (let t = record s { callback = callback; user_data = user_data } in
            let queued = camera_queue_buffers os t in
            if is_neg queued then (t, queued) else stream_on os t))

-- The failure of VIDIOC_STREAMOFF is only logged.
unfoldable pub camera_stop_streaming : Camera → Camera × ℤ
camera_stop_streaming s = if not s.status.streaming then (s, pos 0) else (
  record s {
    running = false;
    callback = none;
    user_data = none;
    status = record s.status { streaming = false };
  },
  pos 0,
)

close_devices : Camera × List MapEvent → Outcome
close_devices (s, maps) = record {
  camera = record s {
    mipi_fd = after_close s.mipi_fd;
    sensor_fd = after_close s.sensor_fd;
    status = record s.status { initialized = false };
  };
  ret = pos 0;
  fds = close_fd s.mipi_fd ++ close_fd s.sensor_fd;
  maps = maps;
}

-- The function returns nothing; its outcome's `ret` is 0.
unfoldable pub camera_shutdown : Camera → Outcome
unfolding camera_stop_streaming close_devices
camera_shutdown s =
    if not s.status.initialized
    then record { camera = s; ret = pos 0; fds = []; maps = [] }
    else (let t = if s.status.streaming then (camera_stop_streaming s).0 else s in
        close_devices (camera_free_buffers t))

-- The answers of the two VIDIOC_S_CTRL calls, for the mode and for the value.
control_value : Bool → Reply → ℤ
control_value automatic answer = if automatic then pos 0 else neg_errno answer

camera_set_control : Reply → Reply → Bool → Camera → ℤ
unfolding control_value
camera_set_control mode value automatic s =
    if is_neg s.mipi_fd
    then neg einval
    else (if is_failed mode then neg_errno mode else control_value automatic value)

unfoldable pub camera_set_exposure : Reply → Reply → Bool → Camera → ℤ
unfolding camera_set_control
camera_set_exposure mode value auto_exposure s = camera_set_control mode value auto_exposure s

unfoldable pub camera_set_gain : Reply → Reply → Bool → Camera → ℤ
unfolding camera_set_control
camera_set_gain mode value auto_gain s = camera_set_control mode value auto_gain s

-- The configuration takes the new values also where a control failed.
unfoldable pub camera_set_orientation : Reply → Reply → Bool → Bool → Camera → Camera × ℤ
camera_set_orientation hflip vflip mirror flip s = if is_neg s.mipi_fd then (s, neg einval) else (
  record s { config = record s.config { mirror = mirror; flip = flip } },
  if is_failed vflip then neg_errno vflip else neg_errno hflip,
)
