-- ===== src/Camera.antt =====
-- The camera: targets/rv1106/native/cgo/camera.c and camera.h. `g_camera` is a record; the answers
-- of the kernel are arguments. What an operation opens, closes, maps and unmaps is logged, so that
-- a leak shows.
pub mod Capture
pub mod Descriptors
pub mod Mappings
pub mod Streaming
use hardware_os.Base.{
  ℕ, zero, suc, ◌+◌, ◌-◌, ◌%◌, ◌^◌, Bool, true, false, not, ◌&&◌, Option, none, some, List, [], ◌∷◌,
  ◌++◌, ltb, ◌==◌, if◌then◌else◌, get_elem?, set,
}
use hardware_os.Base.Int.{ℤ, pos, negsuc, neg, is_neg}
use hardware_os.Base.Fds.{FdEvent, opened, closed, close_fd, open_fd}
use hardware_os.Base.Os.{Reply, done, failed, fd_of, neg_errno, is_failed, einval, enomem}

pub record CameraConfig : Type 0 where
  pub width : ℕ
  pub height : ℕ
  pub fps : ℕ
  pub hdr_enabled : Bool
  pub mirror : Bool
  pub flip : Bool

pub record CameraStatus : Type 0 where
  pub initialized : Bool
  pub streaming : Bool
  pub width : ℕ
  pub height : ℕ
  pub fps : ℕ
  pub frame_count : ℕ  -- uint64_t
  pub last_frame_ts_ns : ℕ  -- uint64_t

-- The pointer of a buffer: NULL, MAP_FAILED or an address.
pub data Start : Type 0 where
  null : Start
  map_failed : Start
  at : ℕ → Start

pub record CameraBuffer : Type 0 where
  pub start : Start
  pub size : ℕ

-- A callback is known by a number; `none` is NULL.
pub record Camera : Type 0 where
  pub mipi_fd : ℤ
  pub sensor_fd : ℤ
  pub buffers : List CameraBuffer
  pub buffer_count : ℕ
  pub config : CameraConfig
  pub status : CameraStatus
  pub callback : Option ℕ
  pub user_data : Option ℕ
  pub running : Bool

pub data MapEvent : Type 0 where
  mapped : ℕ → MapEvent
  unmapped : ℕ → MapEvent

-- An operation's outcome: the state, the returned `int`, and what it opened, closed, mapped and
-- unmapped, in order.
pub record Outcome : Type 0 where
  pub camera : Camera
  pub ret : ℤ
  pub fds : List FdEvent
  pub maps : List MapEvent

-- What the kernel answers while a camera is set up: VIDIOC_REQBUFS with the number of buffers that
-- it grants, VIDIOC_QUERYBUF with a buffer's length, `mmap` with its address.
pub record InitOs : Type 0 where
  pub sensor_open : Reply
  pub mipi_open : Reply
  pub sensor_format : Reply
  pub mipi_format : Reply
  pub frame_rate : Reply
  pub reqbufs : Reply
  pub querybuf : ℕ → Reply
  pub mmap : ℕ → Reply

abbrev pub default_config : CameraConfig
default_config = record {
  width = 2304;
  height = 1296;
  fps = 30;
  hdr_enabled = false;
  mirror = false;
  flip = false;
}

abbrev pub camera_config_of : Option CameraConfig → CameraConfig
camera_config_of (some c) = c
camera_config_of none = default_config

-- The mapping of the buffers that are left, from number i: the array, the result and the log.
unfoldable pub alloc_loop :
    InitOs → ℕ → ℕ → List CameraBuffer → List CameraBuffer × ℤ × List MapEvent
alloc_loop os zero i buffers = (buffers, pos 0, [])
alloc_loop os (suc k) i buffers = elim (os.querybuf i) [
  | failed e ↦ (buffers, negsuc e, [])
  | done size ↦ elim (os.mmap i) [
    | failed e ↦ (set buffers i (record { start = map_failed; size = size }), negsuc e, [])
    | done address ↦
        let (buffers', ret, log) =
          alloc_loop os k (i + 1) (set buffers i (record { start = at address; size = size })) in
        (buffers', ret, mapped address ∷ log)
  ]
]

-- The result of the allocation: also the new `buffer_count`.
unfoldable pub camera_alloc_buffers : InitOs → Camera → Camera × ℤ × List MapEvent
camera_alloc_buffers os s = elim os.reqbufs [
  | failed e ↦ (s, negsuc e, [])
  | done count ↦
      if ltb count 2
      then (s, neg enomem, [])
      else (let (buffers, ret, log) = alloc_loop os count 0 s.buffers in
          (record s { buffers = buffers; buffer_count = count }, ret, log))
]

unfoldable pub free_start : Start → List MapEvent
free_start null = []
free_start map_failed = []
free_start (at address) = unmapped address ∷ []

abbrev pub freed : CameraBuffer → CameraBuffer
freed b = elim b.start [ at address ↦ record b { start = null } | _ ↦ b ]

pub free_loop : ℕ → ℕ → List CameraBuffer → List CameraBuffer × List MapEvent
unfolding free_start
free_loop zero i buffers = (buffers, [])
free_loop (suc k) i buffers = elim (get_elem? buffers i) [
  | none ↦ (buffers, [])
  | some b ↦
      let (buffers', log) = free_loop k (i + 1) (set buffers i (freed b)) in
      (buffers', free_start b.start ++ log)
]

unfoldable pub camera_free_buffers : Camera → Camera × List MapEvent
camera_free_buffers s =
    let (buffers, log) = free_loop s.buffer_count 0 s.buffers in
    (record s { buffers = buffers; buffer_count = 0 }, log)

-- A descriptor after it is closed: -1, as it is if it was not open.
abbrev pub after_close : ℤ → ℤ
after_close (pos n) = negsuc 0
after_close (negsuc n) = negsuc n

-- The end of `camera_init` at the label `error`.
init_error : List FdEvent → List MapEvent → ℤ → Camera → Outcome
init_error fds maps ret s = record {
  camera = record s { mipi_fd = after_close s.mipi_fd; sensor_fd = after_close s.sensor_fd };
  ret = ret;
  fds = fds ++ (close_fd s.mipi_fd ++ close_fd s.sensor_fd);
  maps = maps;
}

init_done : Camera → Camera
init_done s = record s {
  status = record s.status {
    initialized = true;
    streaming = false;
    width = s.config.width;
    height = s.config.height;
    fps = s.config.fps;
    frame_count = 0;
  };
}

finish_init : List FdEvent → Camera × ℤ × List MapEvent → Outcome
unfolding init_error init_done
finish_init fds (s, ret, maps) =
    if is_neg ret
    then init_error fds maps ret s
    else record { camera = init_done s; ret = pos 0; fds = fds; maps = maps }

-- From the format of the capture device on. The failures of the sensor's format and of the frame
-- rate are only logged.
init_formats : InitOs → List FdEvent → Camera → Outcome
unfolding init_error finish_init
init_formats os fds s =
    if is_failed os.mipi_format
    then init_error fds [] (neg_errno os.mipi_format) s
    else finish_init fds (camera_alloc_buffers os s)

unfoldable pub camera_init : InitOs → Option CameraConfig → Camera → Outcome
unfolding init_formats
camera_init os config s =
    if s.status.initialized
    then record { camera = s; ret = pos 0; fds = []; maps = [] }
    else (let t = record s {
      config = camera_config_of config;
      sensor_fd = fd_of os.sensor_open;
      mipi_fd = fd_of os.mipi_open;
    } in
        let fds = open_fd os.sensor_open ++ open_fd os.mipi_open in
        if is_failed os.mipi_open
        then init_error fds [] (neg_errno os.mipi_open) t
        else init_formats os fds t)
