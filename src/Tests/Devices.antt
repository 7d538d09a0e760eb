-- ===== src/Tests/Devices.antt =====
-- The camera and the two processors at concrete inputs (cgo/camera.c, cgo/isp.c and cgo/npu.c).
use hardware_os.Base.{
  zero, suc, ◌*◌, ◌≡◌, refl, true, false, none, some, List, [], ◌∷◌, arith, replicate,
}
use hardware_os.Base.Int.{pos, negsuc}
use hardware_os.Base.Os.{done, failed}
use hardware_os.Camera.{
  Camera, null, InitOs, mapped, alloc_loop, camera_alloc_buffers, camera_init, default_config,
}
use hardware_os.Camera.Streaming.{StreamOs, camera_shutdown}
use hardware_os.Base.Fds.{open_after, closes_open}
use hardware_os.Camera.Descriptors as Fds
use hardware_os.Camera.Mappings.{
  camera_shutdown-camera_init, camera_init_leaks, maps_from, unmaps_from,
}
use hardware_os.Camera.Capture.{
  Round, ready, timeout, camera_capture_thread, camera_capture_thread_accounts, IsAccounted,
}

abbrev no_camera : Camera
no_camera = record {
  mipi_fd = negsuc 0;
  sensor_fd = negsuc 0;
  buffers = replicate 4 (record { start = null; size = 0 });
  buffer_count = 0;
  config = default_config;
  status = record {
    initialized = false;
    streaming = false;
    width = 0;
    height = 0;
    fps = 0;
    frame_count = 0;
    last_frame_ts_ns = 0;
  };
  callback = some 1;
  user_data = none;
  running = false;
}

-- Everything succeeds, with two buffers.
abbrev good_os : InitOs
good_os = record {
  sensor_open = done 7;
  mipi_open = done 8;
  sensor_format = done 0;
  mipi_format = done 0;
  frame_rate = done 0;
  reqbufs = done 2;
  querybuf = λ i. done 100;
  mmap = λ i. done (i * 4096);
}

-- The second buffer cannot be queried.
abbrev bad_os : InitOs
bad_os = record good_os { querybuf = λ i. elim i [ zero ↦ done 100 | suc n ↦ failed 4 ] }

abbrev stream_os : StreamOs
stream_os = record { qbuf = λ i. done 0; stream_on = done 0; thread_created = true }

no_camera-IsSound : Fds.IsSound no_camera
no_camera-IsSound = record {
  mipi_closed = λ _. refl;
  sensor_closed = λ _. refl;
  mipi_off = λ _. refl;
  sensor_off = λ _. refl;
  streams_initialized = λ on. ground arith;
  thread = refl;
}

run-held_example :
    let ops =
      Fds.init bad_os none
      ∷ Fds.init good_os none
      ∷ Fds.start_streaming stream_os none none
      ∷ Fds.shutdown
      ∷ [] in
    Fds.IsSound (Fds.run ops no_camera).0
    × (open_after (Fds.run ops no_camera).1 (Fds.held no_camera)
        ≡ Fds.held (Fds.run ops no_camera).0)
    × (closes_open (Fds.run ops no_camera).1 (Fds.held no_camera) ≡ true)
run-held_example =
    Fds.run-held
      (Fds.init bad_os none
        ∷ Fds.init good_os none
        ∷ Fds.start_streaming stream_os none none
        ∷ Fds.shutdown
        ∷ [])
      no_camera no_camera-IsSound

init_succeeds : (camera_init good_os none no_camera).ret ≡ pos 0
unfolding camera_init camera_alloc_buffers alloc_loop
init_succeeds = refl

camera_shutdown-camera_init_example :
    ((camera_init good_os none no_camera).maps ≡ maps_from good_os 2 0)
    × ((camera_shutdown (camera_init good_os none no_camera).camera).maps ≡ unmaps_from good_os 2 0)
camera_shutdown-camera_init_example =
    camera_shutdown-camera_init good_os none no_camera 2 refl refl (omega arith) init_succeeds

camera_init_leaks_example :
    ((camera_init bad_os none no_camera).ret ≡ negsuc 4)
    × ((camera_init bad_os none no_camera).maps ≡ mapped 0 ∷ [])
    × ((camera_shutdown (camera_init bad_os none no_camera).camera).maps ≡ [])
camera_init_leaks_example =
    camera_init_leaks bad_os none no_camera 8 0 0 100 0 4 refl refl refl refl refl refl refl

abbrev rounds : List Round
rounds =
    record {
      running = true;
      select = timeout;
      dequeue = done 0;
      bytesused = 0;
      sequence = 0;
      now_ns = 1;
      requeue = done 0;
    }
    ∷ record {
      running = true;
      select = ready;
      dequeue = done 1;
      bytesused = 50;
      sequence = 0;
      now_ns = 2;
      requeue = done 0;
    }
    ∷ record {
      running = true;
      select = ready;
      dequeue = done 0;
      bytesused = 60;
      sequence = 1;
      now_ns = 3;
      requeue = failed 4;
    }
    ∷ []

camera_capture_thread_accounts_example :
    IsAccounted no_camera (camera_capture_thread rounds no_camera)
camera_capture_thread_accounts_example =
    camera_capture_thread_accounts rounds no_camera (omega arith)
