-- ===== src/Tests/Edid.antt =====
-- Hexadecimal texts and EDID transfers at concrete inputs (cgo/ctrl.c and cgo/edid.c).
use hardware_os.Base.{
  ℕ, zero, suc, ◌*◌, ◌/◌, ◌%◌, ◌<◌, ◌≡◌, ◌≢◌, refl, ap, inr, none, some, List, [], ◌∷◌, ◌++◌, arith,
  length, replicate, take, drop, get_or, All, sum, Bool, true, false, ◌||◌,
}
use hardware_os.Base.Int.{pos}
use hardware_os.Base.Os.{done, failed}
use hardware_os.Base.CString.{codes}
use hardware_os.Hex.{hex_to_bytes, hex_of, hex_digit, is_space}
use hardware_os.Hex.Decode.{IsPlain, decode, both_digits, in_front, IsDecoded, hex_to_bytes-decode}
use hardware_os.Hex.RoundTrip.{hex_to_bytes-hex_of}
use hardware_os.Edid.{
  fix_edid_checksum, open_subdev, s_edid, close_subdev, jetkvm_video_set_edid,
  jetkvm_video_get_edid_hex,
}
use hardware_os.Edid.Checksum.Unique.{fix_edid_checksum_unique}
use hardware_os.Edid.LogStatus.{begins_with, start_status, videoc_log_status}
use hardware_os.Edid.LogStatus.Blanked.{IsLastStatus, IsReport, videoc_log_status_lem}
use hardware_os.Edid.Transfer.{
  IsValidCall, jetkvm_video_set_edid-hex_of, jetkvm_video_set_edid_valid,
  jetkvm_video_get_edid_hex-hex_to_bytes,
}

abbrev bytes : ℕ → ℕ → List ℕ
bytes n v = replicate n v

small_bytes : (n v : ℕ) → v < 256 → All (λ b. b < 256) (bytes n v)
small_bytes zero v h = tt
small_bytes (suc n) v h = (h, small_bytes n v h)

-- Two blocks of sevens, whose checksums are wrong.
abbrev two_blocks : List ℕ
two_blocks = bytes 256 7

abbrev stack_buffer : List ℕ
stack_buffer = bytes 256 0

jetkvm_video_set_edid_valid_example :
    All IsValidCall
      (jetkvm_video_set_edid stack_buffer (hex_of two_blocks) (done 5) (failed 21)).calls
jetkvm_video_set_edid_valid_example =
    jetkvm_video_set_edid_valid (hex_of two_blocks) stack_buffer (done 5) (failed 21)
      (small_bytes 256 0 (omega arith)) refl

jetkvm_video_set_edid-hex_of_example :
    let sent =
      fix_edid_checksum (two_blocks ++ drop (length two_blocks) stack_buffer) (length two_blocks) in
    jetkvm_video_set_edid stack_buffer (hex_of two_blocks) (done 5) (done 0) ≡ record {
      ret = pos 0;
      errno = none;
      buffer = sent;
      calls = open_subdev ∷ s_edid (length two_blocks / 128) sent ∷ close_subdev ∷ [];
    }
jetkvm_video_set_edid-hex_of_example =
    jetkvm_video_set_edid-hex_of two_blocks stack_buffer 5 0 (small_bytes 256 7 (omega arith))
      (inr refl) refl

jetkvm_video_get_edid_hex-hex_to_bytes_example :
    (text : List ℕ) × (jetkvm_video_get_edid_hex [] (done 5) (some (1, two_blocks)) true
      ≡ some text)
    × (hex_to_bytes text stack_buffer 256
        ≡ (pos (1 * 128), take (1 * 128) two_blocks ++ drop (1 * 128) stack_buffer))
jetkvm_video_get_edid_hex-hex_to_bytes_example =
    jetkvm_video_get_edid_hex-hex_to_bytes [] two_blocks stack_buffer 5 1
      (small_bytes 256 7 (omega arith)) refl (omega arith) (omega arith) refl

reads_two : hex_to_bytes (hex_of (171 ∷ 9 ∷ [])) (bytes 4 0) 3 ≡ (pos 2, 171 ∷ 9 ∷ 0 ∷ 0 ∷ [])
reads_two =
    hex_to_bytes-hex_of (171 ∷ 9 ∷ []) (bytes 4 0) 3 (omega arith, (omega arith, tt)) (omega arith)
      (omega arith) (omega arith)

-- "a<6>START STATUS<6>x"
abbrev kernel_log : List ℕ
kernel_log =
    b'a' ∷ b'<' ∷ b'6' ∷ b'>' ∷ b'S' ∷ b'T' ∷ b'A' ∷ b'R' ∷ b'T' ∷ b' ' ∷ b'S' ∷ b'T' ∷ b'A' ∷ b'T'
    ∷ b'U' ∷ b'S' ∷ b'<' ∷ b'6' ∷ b'>' ∷ b'x' ∷ []

-- No status begins in a text.
abbrev has_status : List ℕ → Bool
has_status [] = false
has_status (c ∷ cs) = begins_with start_status (c ∷ cs) || has_status cs

neither : (a b : Bool) → (a || b) ≡ false → (a ≡ false) × (b ≡ false)
neither a b none_there = ground arith

no_status :
    (cs : List ℕ) (j : ℕ) → has_status cs ≡ false → begins_with start_status (drop j cs) ≡ false
no_status [] zero none_there = refl
no_status [] (suc j) none_there = refl
no_status (c ∷ cs) zero none_there = (neither _ _ none_there).0
no_status (c ∷ cs) (suc j) none_there = no_status cs j (neither _ _ none_there).1

last_at_four : IsLastStatus kernel_log 4
last_at_four = record { there = refl; no_later = later }
  where
    later : (j : ℕ) → 4 < j → begins_with start_status (drop j kernel_log) ≡ false
    later (suc (suc (suc (suc (suc j))))) lt = no_status (drop 5 kernel_log) j refl
    later zero lt = refl
    later (suc zero) lt = refl
    later (suc (suc zero)) lt = refl
    later (suc (suc (suc zero))) lt = refl
    later (suc (suc (suc (suc zero)))) lt = ground arith

videoc_log_status_lem_example :
    (text : List ℕ) × (videoc_log_status (done 3) (done 0) (some kernel_log) true ≡ some text)
    × IsReport kernel_log 4 text
videoc_log_status_lem_example = videoc_log_status_lem 3 0 4 kernel_log last_at_four

-- "0aFf", in both cases.
abbrev mixed : List ℕ
mixed = codes "0aFf"

mixed-IsPlain : All IsPlain mixed
unfolding is_space
mixed-IsPlain = (
  (refl, λ e. ground arith, λ e. ground arith),
  (
    (refl, λ e. ground arith, λ e. ground arith),
    (
      (refl, λ e. ground arith, λ e. ground arith),
      ((refl, λ e. ground arith, λ e. ground arith), tt),
    ),
  ),
)

decodes_mixed : decode mixed ≡ some (10 ∷ 255 ∷ [])
unfolding decode both_digits in_front hex_digit
decodes_mixed = refl

hex_to_bytes-decode_example :
    IsDecoded (decode mixed) (bytes 4 0) 3 (hex_to_bytes mixed (bytes 4 0) 3)
hex_to_bytes-decode_example =
    hex_to_bytes-decode mixed (bytes 4 0) 3 mixed-IsPlain (omega arith) (omega arith)

-- A block of zeros with its checksum, and one whose last byte is wrong.
abbrev zero_block : List ℕ
zero_block = bytes 128 0

abbrev wrong_block : List ℕ
wrong_block = bytes 127 0 ++ 9 ∷ []

small_at : (xs : List ℕ) → All (λ b. b < 256) xs → (j : ℕ) → get_or xs j 0 < 256
small_at [] small j = omega arith
small_at (x ∷ xs) small zero = small.0
small_at (x ∷ xs) small (suc j) = small_at xs small.1 j

small_wrong : All (λ b. b < 256) wrong_block
small_wrong = small_end 127
  where
    small_end : (n : ℕ) → All (λ b. b < 256) (bytes n 0 ++ 9 ∷ [])
    small_end zero = (omega arith, tt)
    small_end (suc n) = (omega arith, small_end n)

but_last : (n j : ℕ) → j ≢ n → get_or (bytes (suc n) 0) j 0 ≡ get_or (bytes n 0 ++ 9 ∷ []) j 0
but_last zero zero other = absurd (other refl)
but_last zero (suc j) other = refl
but_last (suc n) zero other = refl
but_last (suc n) (suc j) other = but_last n j (λ e. other (ap suc e))

only_block : (b : ℕ) → b < 1 → b ≡ 0
only_block b h = omega arith

fix_edid_checksum_unique_example :
    get_or zero_block 127 0 ≡ get_or (fix_edid_checksum wrong_block 128) 127 0
fix_edid_checksum_unique_example =
    fix_edid_checksum_unique wrong_block zero_block 128 127 (small_at wrong_block small_wrong)
      (small_at zero_block (small_bytes 128 0 (omega arith))) (omega arith)
      (λ j other. but_last 127 j (λ e. other (omega arith)))
      (λ b h. ap (λ n. sum (take 128 (drop (n * 128) zero_block)) % 256) (only_block b h))
      (omega arith)
