-- ===== src/Camera/Mappings.antt =====
-- The mapped buffers of the camera (cgo/camera.c).
use hardware_os.Base.{
  ℕ, zero, suc, ◌+◌, ◌≤◌, ◌<◌, ◌≡◌, ◌≢◌, refl, ap, ap₂, ◌∙◌, ◌⊎◌, inl, inr, true, false, Option,
  some, List, [], ◌∷◌, arith, get_elem?, set, length, length-set,
}
use hardware_os.Base.Int.{ℤ, pos, negsuc, is_neg}
use hardware_os.Base.Os.{Reply, done, failed}
use hardware_os.Camera.{
  CameraConfig, Camera, CameraBuffer, at, MapEvent, mapped, unmapped, InitOs, camera_alloc_buffers,
  alloc_loop, free_loop, camera_free_buffers, camera_init,
}
use hardware_os.Camera.Streaming.{camera_shutdown}

-- The address of a mapping that the kernel makes.
abbrev address : Reply → ℕ
address (done n) = n
address (failed e) = 0

-- The mapping, and the unmapping, of the buffers from number i, in order.
abbrev pub maps_from : InitOs → ℕ → ℕ → List MapEvent
maps_from os zero i = []
maps_from os (suc k) i = mapped (address (os.mmap i)) ∷ maps_from os k (i + 1)

abbrev pub unmaps_from : InitOs → ℕ → ℕ → List MapEvent
unmaps_from os zero i = []
unmaps_from os (suc k) i = unmapped (address (os.mmap i)) ∷ unmaps_from os k (i + 1)

get_elem?-set_self :
    (xs : List CameraBuffer) (i : ℕ) (b : CameraBuffer)
    → i < length xs
    → get_elem? (set xs i b) i ≡ some b
get_elem?-set_self [] i b h = elim h [ ]
get_elem?-set_self (x ∷ xs) zero b h = refl
get_elem?-set_self (x ∷ xs) (suc i) b h = get_elem?-set_self xs i b (omega arith)

get_elem?-set_ne :
    (xs : List CameraBuffer) (i j : ℕ) (b : CameraBuffer)
    → i ≢ j
    → get_elem? (set xs i b) j ≡ get_elem? xs j
get_elem?-set_ne [] i j b h = refl
get_elem?-set_ne (x ∷ xs) zero zero b h = absurd (h refl)
get_elem?-set_ne (x ∷ xs) zero (suc j) b h = refl
get_elem?-set_ne (x ∷ xs) (suc i) zero b h = refl
get_elem?-set_ne (x ∷ xs) (suc i) (suc j) b h = get_elem?-set_ne xs i j b (λ e. h (ap suc e))

Reply-cases : (r : Reply) → ((n : ℕ) × (r ≡ done n)) ⊎ ((e : ℕ) × (r ≡ failed e))
Reply-cases (done n) = inl (n, refl)
Reply-cases (failed e) = inr (e, refl)

-- The buffers from number i are mapped where the kernel said.
abbrev HasMapped : InitOs → ℕ → ℕ → List CameraBuffer → Type 0
HasMapped os zero i buffers = Unit
HasMapped os (suc k) i buffers =
    ((b : CameraBuffer) × (get_elem? buffers i ≡ some b) × (b.start ≡ at (address (os.mmap i))))
    × HasMapped os k (i + 1) buffers

HasMapped-set :
    (os : InitOs) (k i m : ℕ) (b : CameraBuffer) (buffers : List CameraBuffer)
    → m < i
    → HasMapped os k i buffers
    → HasMapped os k i (set buffers m b)
HasMapped-set os zero i m b buffers h v = tt
HasMapped-set os (suc k) i m b buffers h ((c, found, start), rest) = (
  (c, get_elem?-set_ne buffers m i b (omega arith) ∙ found, start),
  HasMapped-set os k (i + 1) m b buffers (omega arith) rest,
)

free_loop_lem :
    (os : InitOs) (k i : ℕ) (buffers : List CameraBuffer)
    → HasMapped os k i buffers
    → (free_loop k i buffers).1 ≡ unmaps_from os k i
unfolding free_loop
free_loop_lem os zero i buffers v = refl
free_loop_lem os (suc k) i buffers ((b, found, start), rest) =
    rw (found, free_loop, start)
      (ap (λ (t : List MapEvent). unmapped (address (os.mmap i)) ∷ t)
        (free_loop_lem os k (i + 1) _ (HasMapped-set os k (i + 1) i _ buffers (omega arith) rest)))

-- What the allocation leaves when it succeeds.
record IsMapped (os : InitOs) (k i : ℕ) (old : List CameraBuffer)
    (r : List CameraBuffer × ℤ × List MapEvent) : Type 0 where
  below : (j : ℕ) → j < i → get_elem? r.0 j ≡ get_elem? old j
  above : HasMapped os k i r.0
  log : r.2 ≡ maps_from os k i

module _ (os : InitOs) (k i size a : ℕ) (buffers : List CameraBuffer)
    (queried : os.querybuf i ≡ done size) (mapping : os.mmap i ≡ done a) where
  alloc_loop-suc : alloc_loop os (suc k) i buffers ≡ (
    (alloc_loop os k (i + 1) (set buffers i (record { start = at a; size = size }))).0,
    (alloc_loop os k (i + 1) (set buffers i (record { start = at a; size = size }))).1,
    mapped a ∷ (alloc_loop os k (i + 1) (set buffers i (record { start = at a; size = size }))).2,
  )
  unfolding alloc_loop
  alloc_loop-suc = rw (queried, mapping, alloc_loop) refl

  IsMapped-suc :
      i < length buffers
      → IsMapped os k
          (i + 1)
          (set buffers i (record { start = at a; size = size }))
          (alloc_loop os k (i + 1) (set buffers i (record { start = at a; size = size })))
      → IsMapped os (suc k) i buffers (alloc_loop os (suc k) i buffers)
  IsMapped-suc room v =
      let b : CameraBuffer = record { start = at a; size = size } in
      rw alloc_loop-suc (record {
        below = λ j h. v.below j (omega arith) ∙ get_elem?-set_ne buffers i j b (omega arith);
        above = (
          (b, v.below i (omega arith) ∙ get_elem?-set_self buffers i b room, rw mapping refl),
          v.above,
        );
        log = ap₂ (λ (n : ℕ) (t : List MapEvent). mapped n ∷ t) (rw mapping refl) v.log;
      })

alloc_loop_lem :
    (os : InitOs) (k i : ℕ) (buffers : List CameraBuffer)
    → i + k ≤ length buffers
    → is_neg (alloc_loop os k i buffers).1 ≡ false
    → IsMapped os k i buffers (alloc_loop os k i buffers)
unfolding alloc_loop
alloc_loop_lem os zero i buffers room ok = record { below = λ j h. refl; above = tt; log = refl }
alloc_loop_lem os (suc k) i buffers room ok = elim (Reply-cases (os.querybuf i)) [
  | inr (e, bad) ↦ cc (rw (bad, alloc_loop) at ok)
  | inl (size, queried) ↦ elim (Reply-cases (os.mmap i)) [
    | inr (e, bad) ↦ cc (rw (queried, bad, alloc_loop) at ok)
    | inl (a, mapping) ↦
        let b : CameraBuffer = record { start = at a; size = size } in
        IsMapped-suc os k i size a buffers queried mapping (omega arith) (
          alloc_loop_lem os k (i + 1) (set buffers i b) (omega (arith, length-set buffers i b))
            (rw (alloc_loop-suc os k i size a buffers queried mapping) at ok))
  ]
]

-- What a successful `camera_init` does to the buffers.
init_buffers :
    (os : InitOs) (config : Option CameraConfig) (s : Camera) (count : ℕ)
    → s.status.initialized ≡ false
    → os.reqbufs ≡ done count
    → (camera_init os config s).ret ≡ pos 0
    → let r = alloc_loop os count 0 s.buffers in
      let o = camera_init os config s in
      (is_neg r.1 ≡ false)
      × (o.maps ≡ r.2)
      × (o.camera.buffers ≡ r.0)
      × (o.camera.buffer_count ≡ count)
      × (o.camera.status.initialized ≡ true)
unfolding camera_init camera_alloc_buffers
init_buffers os config s count off granted ok = ground arith

-- When `camera_init` succeeds on a camera that is not initialized, and is granted no more buffers
-- than the array holds, it maps one buffer after the other, and `camera_shutdown` unmaps exactly
-- these, in the same order.
pub camera_shutdown-camera_init :
    (os : InitOs) (config : Option CameraConfig) (s : Camera) (count : ℕ)
    → s.status.initialized ≡ false
    → os.reqbufs ≡ done count
    → count ≤ length s.buffers
    → (camera_init os config s).ret ≡ pos 0
    → ((camera_init os config s).maps ≡ maps_from os count 0)
      × ((camera_shutdown (camera_init os config s).camera).maps ≡ unmaps_from os count 0)
unfolding camera_shutdown camera_free_buffers
camera_shutdown-camera_init os config s count off granted fits ok =
    let (good, log, kept, number, up) = init_buffers os config s count off granted ok in
    let v = alloc_loop_lem os count 0 s.buffers (omega arith) good in
    let freed_all = free_loop_lem os count 0 (alloc_loop os count 0 s.buffers).0 v.above in
    (log ∙ v.log, ground (arith, freed_all, number, kept, up))

-- Where the camera is not initialized, the capture device opens and takes its format, at least two
-- buffers are granted and the first is mapped, but the second cannot be queried, `camera_init`
-- fails and leaves the first buffer mapped: the camera is not initialized, and a shutdown unmaps
-- nothing.
pub camera_init_leaks :
    (os : InitOs) (config : Option CameraConfig) (s : Camera) (m f count size a e : ℕ)
    → s.status.initialized ≡ false
    → os.mipi_open ≡ done m
    → os.mipi_format ≡ done f
    → os.reqbufs ≡ done (suc (suc count))
    → os.querybuf 0 ≡ done size
    → os.mmap 0 ≡ done a
    → os.querybuf 1 ≡ failed e
    → ((camera_init os config s).ret ≡ negsuc e)
      × ((camera_init os config s).maps ≡ mapped a ∷ [])
      × ((camera_shutdown (camera_init os config s).camera).maps ≡ [])
unfolding camera_init camera_alloc_buffers camera_shutdown alloc_loop
camera_init_leaks os config s m f count size a e off open_ok format_ok granted q0 m0 q1 =
    ground arith
