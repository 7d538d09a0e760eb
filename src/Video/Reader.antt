-- ===== src/Video/Reader.antt =====
-- The thread that takes the encoded stream from the encoder and hands it on: `venc_read_stream` of
-- cgo/video.c, with `video_send_frame` of cgo/ctrl.c. What it meets in each turn is an argument; the
-- end of the list is the thread waiting.
use hardware_os.Base.{
  ℕ, ◌≡◌, refl, ◌⊎◌, inl, Bool, true, false, not, ◌&&◌, ◌||◌, List, [], ◌∷◌, ◌++◌, arith,
  if◌then◌else◌,
}
use hardware_os.Base.Int.{ℤ, same_ℤ}
use hardware_os.Video.{is_error}

-- `venc_running` as it is read, the answer of RK_MPI_VENC_GetStream with the size and the number of
-- the packet, and the answer of RK_MPI_VENC_ReleaseStream.
pub record Round : Type 0 where
  pub running : Bool
  pub get_stream : ℤ
  pub packet : ℕ
  pub size : ℕ
  pub release : ℤ

-- What the thread does with a packet.
pub data PacketEvent : Type 0 where
  sent : ℕ → ℕ → PacketEvent
  released : ℕ → PacketEvent

-- What `video_handler` is called with, if it is set.
unfoldable pub video_send_frame : Bool → ℕ → ℕ → List PacketEvent
video_send_frame handler packet size = if handler then sent packet size ∷ [] else []

-- What has happened, whether the thread has ended, and whether the program has, by reading through
-- `stFrame.pstPack` where it is NULL.
pub record ReadStream : Type 0 where
  pub events : List PacketEvent
  pub ended : Bool
  pub crashed : Bool

abbrev ends : Bool → ReadStream
ends crashed = record { events = []; ended = true; crashed = crashed }

-- `buf_empty` is RK_ERR_VENC_BUF_EMPTY, and `handler` says that the video handler is set.
module _ (buf_empty : ℤ) (handler : Bool) where
  take_packet : Bool → Round → ReadStream → ReadStream
  unfolding video_send_frame
  take_packet false r rest = ends true
  take_packet true r rest = record rest {
    events = video_send_frame handler r.packet r.size ++ released r.packet ∷ rest.events;
  }

  -- `pack`: the `malloc` of `stFrame.pstPack` succeeds, which is not checked.
  unfoldable pub venc_read_stream : Bool → List Round → ReadStream
  unfolding take_packet
  venc_read_stream pack [] = record { events = []; ended = false; crashed = false }
  venc_read_stream pack (r ∷ rs) =
      let rest = venc_read_stream pack rs in
      if not r.running
      then ends false
      else (if not (is_error r.get_stream)
          then take_packet pack r rest
          else (if same_ℤ r.get_stream buf_empty then rest else ends false))

  -- The thread goes on after such a turn.
  abbrev pub is_on : Round → Bool
  is_on r = r.running && (not (is_error r.get_stream) || same_ℤ r.get_stream buf_empty)

  -- The turns before the first one that ends the thread.
  abbrev pub turns_on : List Round → List Round
  turns_on [] = []
  turns_on (r ∷ rs) = if is_on r then r ∷ turns_on rs else []

  -- The packets that the encoder delivers in some turns.
  abbrev pub packets : List Round → List (ℕ × ℕ)
  packets [] = []
  packets (r ∷ rs) = if is_error r.get_stream then packets rs else (r.packet, r.size) ∷ packets rs

  -- Each packet is sent, if there is a handler, and then released, before the next one.
  abbrev pub hand_on : List (ℕ × ℕ) → List PacketEvent
  hand_on [] = []
  hand_on ((packet, size) ∷ rest) =
      (if handler then sent packet size ∷ [] else []) ++ released packet ∷ hand_on rest

  -- Whether the flag is read as cleared in one of the turns.
  abbrev pub told_to_stop : List Round → Bool
  told_to_stop [] = false
  told_to_stop (r ∷ rs) = not r.running || told_to_stop rs

  -- Where the packet's memory is allocated, every packet that the encoder delivers while the thread
  -- runs is handed to the handler, if there is one, and released after that, one after the other, and
  -- the thread ends once it is told to; where it is not, no packet is handed on or released.
  pub venc_read_stream_lem :
      (rs : List Round)
      → ((venc_read_stream true rs).events ≡ hand_on (packets (turns_on rs)))
        × ((told_to_stop rs ≡ false) ⊎ ((venc_read_stream true rs).ended ≡ true))
        × ((venc_read_stream true rs).crashed ≡ false)
        × ((venc_read_stream false rs).events ≡ [])
  unfolding venc_read_stream
  venc_read_stream_lem [] = (refl, inl refl, refl, refl)
  venc_read_stream_lem (r ∷ rs) = ground (arith, venc_read_stream_lem rs)
