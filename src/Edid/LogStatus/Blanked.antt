-- ===== src/Edid/LogStatus/Blanked.antt =====
-- The log that is returned has no level marks (cgo/edid.c).
use hardware_os.Base.{
  subst, sym, ℕ, zero, suc, ◌+◌, ◌<◌, ◌∙◌, Option, if◌then◌else◌, ◌==◌, ==_iff, ◌≡◌, refl, ap, ◌⊎◌,
  inl, inr, Bool, true, false, ◌&&◌, ◌||◌, none, some, List, [], ◌∷◌, arith, Bool-cases, length,
  drop, get_or, ◌≤◌,
}
use hardware_os.Base.Os.{done}
use hardware_os.Edid.LogStatus.{
  begins_with, level_mark, start_status, last_status, rewind, status_text, blank, videoc_log_status,
}

-- Whether a text has a level mark somewhere.
abbrev pub has_mark : List ℕ → Bool
has_mark [] = false
has_mark (c ∷ cs) = begins_with level_mark (c ∷ cs) || has_mark cs

-- What the overwritten text shows of a level mark was in the text.
blank-third :
    (k : ℕ) (cs : List ℕ)
    → begins_with (b'>' ∷ []) (blank k cs) ≡ true
    → begins_with (b'>' ∷ []) cs ≡ true
unfolding blank
blank-third k [] h = h
blank-third (suc k) (c ∷ cs) h = cc
blank-third zero (c ∷ cs) h = elim (Bool-cases (begins_with level_mark (c ∷ cs))) [
  | inl mark ↦ cc (rw mark at h)
  | inr plain ↦ rw plain at h
]

and_true : (a b : Bool) → (a && b) ≡ true → (a ≡ true) × (b ≡ true)
and_true true b h = (refl, h)
and_true false b h = cc

blank-second :
    (k : ℕ) (cs : List ℕ)
    → begins_with (b'6' ∷ b'>' ∷ []) (blank k cs) ≡ true
    → begins_with (b'6' ∷ b'>' ∷ []) cs ≡ true
unfolding blank
blank-second k [] h = h
blank-second (suc k) (c ∷ cs) h = cc
blank-second zero (c ∷ cs) h = elim (Bool-cases (begins_with level_mark (c ∷ cs))) [
  | inl mark ↦ cc (rw mark at h)
  | inr plain ↦
      let (six, rest) =
        and_true (b'6' == c) (begins_with (b'>' ∷ []) (blank 0 cs)) (rw plain at h) in
      rw (six, blank-third 0 cs rest) refl
]

kept_mark :
    (c : ℕ) (cs : List ℕ)
    → begins_with level_mark (c ∷ cs) ≡ false
    → begins_with level_mark (c ∷ blank 0 cs) ≡ false
kept_mark c cs plain = elim (Bool-cases (begins_with level_mark (c ∷ blank 0 cs))) [
  | inr fine ↦ fine
  | inl mark ↦
      let (less, rest) = and_true (b'<' == c) (begins_with (b'6' ∷ b'>' ∷ []) (blank 0 cs)) mark in
      cc (rw (less, blank-second 0 cs rest) at plain)
]

has_mark-blank : (k : ℕ) (cs : List ℕ) → has_mark (blank k cs) ≡ false
unfolding blank
has_mark-blank k [] = refl
has_mark-blank (suc k) (c ∷ cs) = has_mark-blank k cs
has_mark-blank zero (c ∷ cs) = elim (Bool-cases (begins_with level_mark (c ∷ cs))) [
  | inl mark ↦ rw mark (has_mark-blank 2 cs)
  | inr plain ↦ rw plain (rw (kept_mark c cs plain) (has_mark-blank 0 cs))
]

length-blank : (k : ℕ) (cs : List ℕ) → length (blank k cs) ≡ length cs
unfolding blank
length-blank k [] = refl
length-blank (suc k) (c ∷ cs) = ap suc (length-blank k cs)
length-blank zero (c ∷ cs) = ap suc (length-blank _ cs)

rewind_le : (buf : List ℕ) (p : ℕ) → rewind buf p ≤ p
unfolding rewind
rewind_le buf zero = omega arith
rewind_le buf (suc p) = elim (Bool-cases (get_or buf (suc p) 0 == b'<')) [
  | inl here ↦ rw here (omega arith)
  | inr on ↦ rw on (omega (arith, rewind_le buf p))
]

rewind_at : (buf : List ℕ) (p : ℕ) → (rewind buf p ≡ 0) ⊎ (get_or buf (rewind buf p) 0 ≡ b'<')
unfolding rewind
rewind_at buf zero = inl refl
rewind_at buf (suc p) = elim (Bool-cases (get_or buf (suc p) 0 == b'<')) [
  | inl here ↦ rw here (inr ((==_iff (get_or buf (suc p) 0) b'<').0 here))
  | inr on ↦ rw on (rewind_at buf p)
]

not_both : (a b : ℕ) → a < b → b ≤ a → ⊥
not_both a b lt le = omega arith

rewind_last : (buf : List ℕ) (p j : ℕ) → rewind buf p < j → j ≤ p → (get_or buf j 0 == b'<') ≡ false
unfolding rewind
rewind_last buf zero j lt le = absurd (not_both 0 j lt le)
rewind_last buf (suc p) j lt le = elim (Bool-cases (get_or buf (suc p) 0 == b'<')) [
  | inl here ↦ absurd (not_both (suc p) j (rw here at lt) le)
  | inr on ↦ elim (Bool-cases (j == suc p)) [
    | inl top ↦ rw ((==_iff j (suc p)).0 top) on
    | inr below ↦ rewind_last buf p j (rw on at lt) (ground arith)
  ]
]

-- The last place at which a text has the words of a status.
pub record IsLastStatus (buf : List ℕ) (i : ℕ) : Type 0 where
  pub there : begins_with start_status (drop i buf) ≡ true
  pub no_later : (j : ℕ) → i < j → begins_with start_status (drop j buf) ≡ false

last_status-none :
    (cs : List ℕ) (k : ℕ) (p : Option ℕ)
    → ((j : ℕ) → begins_with start_status (drop j cs) ≡ false)
    → last_status cs k p ≡ p
unfolding last_status
last_status-none [] k p h = refl
last_status-none (c ∷ cs) k p h = rw (h 0) (last_status-none cs (suc k) p (λ j. h (suc j)))

last_status-IsLastStatus :
    (cs : List ℕ) (k i : ℕ) (p : Option ℕ)
    → IsLastStatus cs i
    → last_status cs k p ≡ some (suc (i + k))
unfolding last_status
last_status-IsLastStatus [] k zero p h = cc h.there
last_status-IsLastStatus [] k (suc i) p h = cc h.there
last_status-IsLastStatus (c ∷ cs) k zero p h = rw h.there (
    last_status-none cs (suc k) (some (suc k)) (λ j. h.no_later (suc j) (omega arith))
    ∙ ap (λ n. some (suc n)) (omega arith))
last_status-IsLastStatus (c ∷ cs) k (suc i) p h =
    last_status-IsLastStatus cs (suc k) i _
      (record { there = h.there; no_later = λ j lt. h.no_later (suc j) (omega arith) })
    ∙ ap (λ n. some (suc n)) (omega arith)

-- Whether a level mark begins at a place of a text, and whether the place lies in one.
abbrev pub mark_at : List ℕ → ℕ → Bool
mark_at cs i = begins_with level_mark (drop i cs)

abbrev pub in_mark : List ℕ → ℕ → Bool
in_mark cs zero = mark_at cs 0
in_mark cs (suc zero) = mark_at cs 1 || mark_at cs 0
in_mark cs (suc (suc i)) = mark_at cs (suc (suc i)) || mark_at cs (suc i) || mark_at cs i

in_mark-plain :
    (c : ℕ) (cs : List ℕ) (i : ℕ)
    → mark_at (c ∷ cs) 0 ≡ false
    → in_mark (c ∷ cs) (suc i) ≡ in_mark cs i
in_mark-plain c cs zero plain = rw plain (ground arith)
in_mark-plain c cs (suc zero) plain = rw plain (ground arith)
in_mark-plain c cs (suc (suc i)) plain = refl

abbrev under : ℕ → ℕ → Bool
under i zero = false
under zero (suc k) = true
under (suc i) (suc k) = under i k

-- The two places behind the beginning of a mark are in it, and begin none.
in_mark-mark :
    (c : ℕ) (cs : List ℕ) (i : ℕ)
    → mark_at (c ∷ cs) 0 ≡ true
    → in_mark (c ∷ cs) (suc i) ≡ (under i 2 || in_mark cs i)
in_mark-mark c cs zero mark = rw mark (ground arith)
in_mark-mark c cs (suc zero) mark = rw mark (ground arith)
in_mark-mark c cs (suc (suc i)) mark = refl

behind_mark :
    (c : ℕ) (cs : List ℕ) (j : ℕ) → mark_at (c ∷ cs) 0 ≡ true → j < 2 → mark_at cs j ≡ false
behind_mark c [] j mark lt = cc (and_true (b'<' == c) false mark).1
behind_mark c (d ∷ cs) zero mark lt =
    let (six, _) = and_true (b'6' == d) _ (and_true (b'<' == c) _ mark).1 in
    rw (sym ((==_iff b'6' d).0 six)) refl
behind_mark c (d ∷ []) (suc j) mark lt =
    let (_, rest) = and_true (b'6' == d) _ (and_true (b'<' == c) _ mark).1 in cc rest
behind_mark c (d ∷ e ∷ cs) (suc zero) mark lt =
    let (_, rest) = and_true (b'6' == d) _ (and_true (b'<' == c) _ mark).1 in
    let (greater, _) = and_true (b'>' == e) _ rest in rw (sym ((==_iff b'>' e).0 greater)) refl
behind_mark c (d ∷ e ∷ cs) (suc (suc j)) mark lt =
    absurd (not_both (suc (suc j)) 2 lt (omega arith))

get_or-blank :
    (k : ℕ) (cs : List ℕ) (i : ℕ)
    → i < length cs
    → ((j : ℕ) → j < k → mark_at cs j ≡ false)
    → get_or (blank k cs) i 0 ≡ (if under i k || in_mark cs i then b' ' else get_or cs i 0)
unfolding blank
get_or-blank k [] i lt h = absurd (not_both i 0 lt (omega arith))
get_or-blank (suc k) (c ∷ cs) zero lt h = refl
get_or-blank (suc k) (c ∷ cs) (suc i) lt h =
    rw (in_mark-plain c cs i (h 0 (omega arith)))
      (get_or-blank k cs i (omega arith) (λ j below. h (suc j) (omega arith)))
get_or-blank zero (c ∷ cs) zero lt h = refl
get_or-blank zero (c ∷ cs) (suc i) lt h = elim (Bool-cases (mark_at (c ∷ cs) 0)) [
  | inl mark ↦
      rw (mark, in_mark-mark c cs i mark)
        (get_or-blank 2 cs i (omega arith) (λ j. behind_mark c cs j mark))
  | inr plain ↦
      rw (plain, in_mark-plain c cs i plain)
        (get_or-blank 0 cs i (omega arith) (λ j below. absurd (not_both j 0 below (omega arith))))
]

add_zero : (i : ℕ) → i + 0 ≡ i
add_zero i = omega arith

-- What is returned for a log: its text from a place on, with a space for each character of a level
-- mark. The place is that of the last `<` up to one past the beginning of the last status, or the
-- beginning of the log.
pub record IsReport (buf : List ℕ) (i : ℕ) (text : List ℕ) : Type 0 where
  pub from : ℕ
  pub from_le : from ≤ suc i
  pub from_at : (from ≡ 0) ⊎ (get_or buf from 0 ≡ b'<')
  pub from_last : (j : ℕ) → from < j → j ≤ suc i → (get_or buf j 0 == b'<') ≡ false
  pub no_marks : has_mark text ≡ false
  pub same_length : length text ≡ length (drop from buf)
  pub chars :
      (j : ℕ)
      → j < length text
      → get_or text j 0 ≡ (if in_mark (drop from buf) j then b' ' else get_or (drop from buf) j 0)

-- Where the log has a status, and `open`, VIDIOC_LOG_STATUS, `klogctl` and `strdup` succeed,
-- `videoc_log_status` returns the log from a place before its last status on, with a space for each
-- character of a level mark and all others kept, and no level mark is left. The place is the last `<`
-- no later than one past the beginning of that status, or the start of the log if there is none.
pub videoc_log_status_lem :
    (fd r i : ℕ) (buf : List ℕ)
    → IsLastStatus buf i
    → (text : List ℕ) × (videoc_log_status (done fd) (done r) (some buf) true ≡ some text)
      × IsReport buf i text
unfolding videoc_log_status
videoc_log_status_lem fd r i buf last =
    let text = blank 0 (drop (rewind buf (suc i)) buf) in
    let same : length text ≡ length (drop (rewind buf (suc i)) buf) = length-blank 0 _ in
    (
      text,
      rw (last_status-IsLastStatus buf 0 i none last)
          (ap (λ p. some (status_text buf (some (suc p)))) (add_zero i)),
      record {
        from = rewind buf (suc i);
        from_le = rewind_le buf (suc i);
        from_at = rewind_at buf (suc i);
        from_last = rewind_last buf (suc i);
        no_marks = has_mark-blank 0 _;
        same_length = same;
        chars = λ j lt.
            get_or-blank 0 _ j (subst (λ n. j < n) same lt)
              (λ k below. absurd (not_both k 0 below (omega arith)));
      },
    )
