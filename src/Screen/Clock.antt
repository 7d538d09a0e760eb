-- ===== src/Screen/Clock.antt =====
-- The clock of the graphics library: `custom_tick_get` of cgo/screen.c. `time_t` is taken to be wide
-- enough for the microseconds since 1970.
use hardware_os.Base.{ℕ, ◌+◌, ◌-◌, ◌*◌, ◌/◌, ◌%◌, ◌^◌, ◌≤◌, ◌<◌, ◌≡◌, ◌==◌, if◌then◌else◌, arith}

-- What `gettimeofday` gives.
pub record TimeVal : Type 0 where
  pub tv_sec : ℕ
  pub tv_usec : ℕ

abbrev pub milliseconds : TimeVal → ℕ
milliseconds t = (t.tv_sec * 1000000 + t.tv_usec) / 1000

-- The times read for the start and for now, and the static `start_ms` before and after.
unfoldable pub custom_tick_get : TimeVal → TimeVal → ℕ → ℕ × ℕ
custom_tick_get tv_start tv_now start_ms =
    let start = if start_ms == 0 then milliseconds tv_start else start_ms in
    (start, (milliseconds tv_now + 2 ^ 64 - start) % 2 ^ 64 % 2 ^ 32)

-- Two ticks, the first of them the first call, differ by the milliseconds between them, modulo 2 ^ 32,
-- if the clock does not go back and is past its first millisecond.
custom_tick_get_elapsed :
    (boot first again second : TimeVal)
    → 0 < milliseconds boot
    → milliseconds boot ≤ milliseconds first
    → milliseconds first ≤ milliseconds second
    → let (start, tick) = custom_tick_get boot first 0 in
      ((custom_tick_get again second start).1 + 2 ^ 32 - tick) % 2 ^ 32
      ≡ (milliseconds second - milliseconds first) % 2 ^ 32
unfolding custom_tick_get
custom_tick_get_elapsed boot first again second up h k =
    elapsed (milliseconds boot) (milliseconds first) (milliseconds second) (milliseconds again) up h
      k
  where
    elapsed :
        (b f s a : ℕ)
        → 0 < b
        → b ≤ f
        → f ≤ s
        → ((s + 2 ^ 64 - (if b == 0 then a else b)) % 2 ^ 64 % 2 ^ 32
              + 2 ^ 32
              - (f + 2 ^ 64 - b) % 2 ^ 64 % 2 ^ 32)
            % 2 ^ 32
          ≡ (s - f) % 2 ^ 32
    elapsed b f s a up h k = ground arith
