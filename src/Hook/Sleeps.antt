-- ===== src/Hook/Sleeps.antt =====
-- How long a coroutine sleeps for sleep, usleep, nanosleep and clock_nanosleep. A time in seconds and nanoseconds is not
-- negative here and, as the rest of an absolute time, fits into a `long long`; an `int` has 32 bits.
use bbtools_coroutine.Base.{
  ℕ, ◌+◌, ◌-◌, ◌*◌, ◌/◌, ◌%◌, ◌≤◌, ◌<◌, ◌≡◌, ◌==◌, leb, ltb, Bool, true, false, if◌then◌else◌,
  arith,
}

-- A call ends at once with 0, or fails, or sleeps for so many milliseconds, as the bits of an `int`.
pub data Sleep : Type 0 where
  at_once rejected : Sleep
  for_ms : ℕ → Sleep

-- Of a number of milliseconds as an `int` that may be negative.
abbrev pub is_positive : ℕ → Bool
is_positive ms = if ltb 0 ms then ltb ms 2147483648 else false

unfoldable pub hook_sleep : ℕ → Sleep
hook_sleep ms = if is_positive ms then for_ms ms else rejected

unfoldable pub hook_usleep : ℕ → Sleep
hook_usleep usec =
    if usec == 0 then at_once else for_ms ((usec + 999) % 4294967296 / 1000 % 4294967296)

abbrev pub whole_ms : ℕ → ℕ → ℕ
whole_ms sec nsec = sec * 1000 + (nsec + 999999) / 1000000

unfoldable pub hook_nanosleep : ℕ → ℕ → Sleep
hook_nanosleep sec nsec =
    let ms = whole_ms sec nsec in if ms == 0 then at_once else for_ms (ms % 4294967296)

abbrev pub ns : ℕ → ℕ → ℕ
ns sec nsec = sec * 1000000000 + nsec

-- `Hook_ClockNanosleep` for the clocks that it knows: until an absolute time, at the time `now`, or for a time.
unfoldable pub hook_clock_nanosleep : Bool → ℕ → ℕ → ℕ → Sleep
hook_clock_nanosleep true now sec nsec =
    if leb (ns sec nsec) now
    then at_once
    else for_ms ((ns sec nsec - now + 999999) / 1000000 % 4294967296)
hook_clock_nanosleep false now sec nsec =
    let ms = whole_ms sec nsec in if ms == 0 then at_once else for_ms (ms % 4294967296)

-- A sleep lasts for the time asked for, or for less than a unit longer.
abbrev pub Lasts : ℕ → ℕ → Sleep → Type 0
Lasts unit time at_once = time ≡ 0
Lasts unit time rejected = ⊥
Lasts unit time (for_ms ms) =
    (ms < 2147483648) × (0 < ms) × (time ≤ ms * unit) × (ms * unit < time + unit)

-- A coroutine that calls usleep with at most 2^32 - 1000 microseconds, nanosleep or a relative clock_nanosleep with less
-- than 2147483 seconds, or clock_nanosleep until an absolute time that is less than 2147483 seconds ahead of the clock,
-- sleeps for a positive number of milliseconds that covers the time asked for and is less than a millisecond longer, or
-- not at all if that time is 0.
pub hook_sleeps-Last :
    (usec sec nsec until_sec until_nsec now : ℕ)
    → usec ≤ 4294966296
    → sec < 2147483
    → nsec < 1000000000
    → ns until_sec until_nsec < now + 2147483000000000
    → Lasts 1000 usec (hook_usleep usec)
      × Lasts 1000000 (ns sec nsec) (hook_nanosleep sec nsec)
      × Lasts 1000000 (ns sec nsec) (hook_clock_nanosleep false now sec nsec)
      × Lasts 1000000
          (ns until_sec until_nsec - now)
          (hook_clock_nanosleep true now until_sec until_nsec)
unfolding hook_usleep hook_nanosleep hook_clock_nanosleep
hook_sleeps-Last usec sec nsec until_sec until_nsec now hu hs hn ha =
    (ground arith, ground arith, ground arith, ground arith)
