-- ===== src/Edid/LogStatus.antt =====
-- The status of the video sub-device in the kernel's log: `videoc_log_status` of cgo/edid.c. The log
-- is the text before the terminator, as a list of characters.
pub mod Blanked
use hardware_os.Base.{
  ℕ, zero, suc, ◌+◌, ◌==◌, Bool, true, false, ◌&&◌, Option, none, some, List, [], ◌∷◌,
  if◌then◌else◌, get_or, drop,
}
use hardware_os.Base.Os.{Reply, done, failed, is_failed}

-- Whether a text begins with another.
abbrev pub begins_with : List ℕ → List ℕ → Bool
begins_with [] s = true
begins_with (c ∷ cs) [] = false
begins_with (c ∷ cs) (d ∷ ds) = c == d && begins_with cs ds

-- "START STATUS"
abbrev pub start_status : List ℕ
start_status =
    b'S' ∷ b'T' ∷ b'A' ∷ b'R' ∷ b'T' ∷ b' ' ∷ b'S' ∷ b'T' ∷ b'A' ∷ b'T' ∷ b'U' ∷ b'S' ∷ []

-- "<6>"
abbrev pub level_mark : List ℕ
level_mark = b'<' ∷ b'6' ∷ b'>' ∷ []

-- The loop over `strstr(p, "START STATUS")`: `p - buf` after it, from the rest of the text and its
-- place. `none` says that nothing was found.
unfoldable pub last_status : List ℕ → ℕ → Option ℕ → Option ℕ
last_status [] i p = p
last_status (c ∷ cs) i p =
    last_status cs (suc i) (if begins_with start_status (c ∷ cs) then some (suc i) else p)

-- `while (p > buf && *p != '<') p--`
unfoldable pub rewind : List ℕ → ℕ → ℕ
rewind buf zero = zero
rewind buf (suc p) = let rest = rewind buf p in if get_or buf (suc p) 0 == b'<' then suc p else rest

-- The loop over `strstr(q, "<6>")`, where `k` characters are still to be overwritten by spaces.
unfoldable pub blank : ℕ → List ℕ → List ℕ
blank k [] = []
blank (suc k) (c ∷ cs) = b' ' ∷ blank k cs
blank zero (c ∷ cs) =
    let mark = begins_with level_mark (c ∷ cs) in
    (if mark then b' ' else c) ∷ blank (if mark then 2 else 0) cs

-- The text from `p` on, after both loops.
status_text : List ℕ → Option ℕ → List ℕ
status_text buf none = buf
status_text buf (some p) = blank 0 (drop (rewind buf p) buf)

-- The answers of `open`, of VIDIOC_LOG_STATUS and of `klogctl` with the text it delivers, and
-- whether `strdup` succeeds.
unfoldable pub videoc_log_status : Reply → Reply → Option (List ℕ) → Bool → Option (List ℕ)
unfolding status_text
videoc_log_status opened status none copied = none
videoc_log_status opened status (some buf) copied =
    if is_failed opened
    then none
    else (if is_failed status
        then none
        else (if copied then some (status_text buf (last_status buf 0 none)) else none))
