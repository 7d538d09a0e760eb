-- ===== src/Lib.antt =====
-- A model of the native code of the RV1106 target: the C program under targets/rv1106/native
-- that captures video, drives the camera, the image signal processor and the neural processor,
-- and shows the user interface of the device.
--
-- The parts, and how they interact. cgo/ctrl.c is the interface to the rest of the firmware: it
-- takes hexadecimal texts and passes EDIDs on to cgo/edid.c, which reads and writes them
-- through a video sub-device. cgo/video.c captures the HDMI input in a streaming thread, feeds
-- the encoder, and restarts the stream when the format changes; it reports its state through
-- cgo/ctrl.c. cgo/vision_pipeline.c sets up cgo/camera.c, cgo/isp.c and cgo/npu.c, and its
-- frame callback, called by the camera's capture thread, encodes each frame and runs the
-- detector. eez/src/ui/ui.c, actions.c and vars.c are the hand-written part of the screens:
-- navigation by gestures, press-and-hold buttons and text variables. screens.c and styles.c,
-- which the screen editor wrote, create the screens with their widgets and send the events of
-- the widgets to actions.c. cgo/screen.c starts the display and runs its tick. cgo/main.c is
-- the program that runs this without the rest of the firmware, and serves one client.
--
-- Base and its children have the shared types: signed integers over the native numbers, the
-- answers of system calls, logs of descriptors or blocks that are opened and closed, texts,
-- and the operations on `float`, which are an argument of the definitions that use them. Server
-- is cgo/main.c. Handlers has the callbacks of cgo/ctrl.c. Hex is hex_to_bytes and bytes_to_hex
-- of cgo/ctrl.c, and Hex/Decode a decoder to compare them with. Edid is cgo/edid.c with the two
-- functions of cgo/ctrl.c that call it. Camera is cgo/camera.c: the state is `g_camera`, an
-- operation returns the new state and what it opened, closed, mapped and unmapped,
-- Camera/Streaming starts and stops the stream, and Camera/Capture is the capture thread. Isp
-- is cgo/isp.c, with what it reports in Isp/Info. Npu is cgo/npu.c, with the inference in
-- Npu/Inference, the colours and the scaling in Npu/Color and the names of classes in
-- Npu/Classes. Pipeline is cgo/vision_pipeline.c over the three, Pipeline/Setup its start and
-- end, and Pipeline/Frame its frame callback. Video is the encoder of cgo/video.c;
-- Video/Session is its streaming thread, Video/Reader the thread that hands the packets on,
-- Video/Control the operations that start, stop and restart the stream, Video/Detect the thread
-- that follows the format, Video/Power the start and the end, and Video/Status the reports of
-- cgo/ctrl.c. Ui has eez/src/ui: Ui/Hold and Ui/Navigation are actions.c and ui.c, Ui/Vars is
-- vars.c, and Ui/Index its variables by name, from cgo/ctrl.c. Screen is cgo/screen.c with the
-- functions of cgo/ctrl.c that change objects by name, Screen/Widgets their flags and states,
-- Screen/Clock the clock, Screen/Start the start of the display and its tick, Screen/Tick the
-- periodic update of the screens in ui.c and screens.c, and Screen/Styles styles.c with the
-- rotation of the display. Screen/Layout has the screens that screens.c creates: each function
-- create_screen_ is a tree of widgets with the calls on each of them, in order, a module for
-- each screen, and Screen/Build runs the trees over the state of the graphics library.
-- Screen/Wiring puts the callbacks of the trees together with the handlers of actions.c,
-- Screen/Wiring/Held has what the press-and-hold buttons do to their widgets, and
-- Screen/Wiring/Abstract the same screens as a machine without pointers. Log is cgo/log.h
-- and cgo/log_handler.c. A definition has the name of the function that it models. Helpers have
-- names of their own and stand before it.
--
-- What the system does is an argument: the answers of open, ioctl, mmap, malloc and of the
-- vendor's library come as records, and threads as lists of turns or events, of any length. A
-- lock that is held through a function makes it one step; where the frame callback calls out
-- without the lock, an arbitrary function of the device stands for what other threads do. A
-- failed assertion, or a read through NULL, is an outcome of its own where the code has one. The
-- reports, which hold no lock, are also modelled as steps of two threads. Unsigned integers
-- keep their wrap-around, written as a remainder. No definition runs on fuel: the loops count
-- down the rounds that the source gives them, and those without a bound follow their list of
-- turns. The wait for the end of a stream makes its 30 attempts.
--
-- Not modelled: the tables of the images and fonts, the graphics library itself, which is an
-- argument, the calls of cgo/ctrl.c that only pass an argument on, the contents of video
-- buffers, and the firmware in other languages, which calls this code. The messages for the log
-- are left out where they are made.
pub mod Base
pub mod Handlers
pub mod Log
pub mod Hex
pub mod Edid
pub mod Ui
pub mod Isp
pub mod Npu
pub mod Camera
pub mod Pipeline
pub mod Screen
pub mod Server
pub mod Video
mod Tests
