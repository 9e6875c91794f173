-- ===== src/PollEvent/State.antt =====
-- bbt/coroutine/detail/Define.hpp: the phases of a CoPollEvent, its packed state word and the event
-- masks. A phase stands in the low byte and the 16 bits of the mask in the two above it, so that
-- `|` of the two is their sum.
use bbtools_coroutine.Base.{
  ℕ, ◌+◌, ◌*◌, ◌/◌, ◌%◌, ◌^◌, ◌<◌, ◌≡◌, Bool, true, false, Option, none, some, ◌==◌, if◌then◌else◌,
  arith,
}

pub data Phase : Type 0 where
  inited arming armed parked pending triggering final cancelled : Phase

phase_code : Phase → ℕ
phase_code inited = 0
phase_code arming = 1
phase_code armed = 2
phase_code parked = 3
phase_code pending = 4
phase_code triggering = 5
phase_code final = 6
phase_code cancelled = 7

-- `static_cast<CoPollEventPhase>`; `none` for a byte that is no phase.
phase_of_code : ℕ → Option Phase
phase_of_code n =
    if n == 0
    then some inited
    else if n == 1
    then some arming
    else if n == 2
    then some armed
    else if n == 3
    then some parked
    else if n == 4
    then some pending
    else if n == 5
    then some triggering
    else if n == 6
    then some final
    else if n == 7
    then some cancelled
    else none

-- `PackCoPollEventState`; a mask is a `short`, here its 16 bits.
pub pack : Phase → ℕ → ℕ
unfolding phase_code
pack p flags = phase_code p + 2 ^ 8 * (flags % 2 ^ 16)

-- `GetCoPollEventPhase` and `GetCoPollEventFlags`
pub get_phase : ℕ → Option Phase
unfolding phase_of_code
get_phase state = phase_of_code (state % 2 ^ 8)

pub get_flags : ℕ → ℕ
get_flags state = state / 2 ^ 8 % 2 ^ 16

-- The phase and the mask that are packed into a state word come back out of it, and the word fits
-- into 24 bits.
pub get-pack :
    (p : Phase) (flags : ℕ)
    → (get_phase (pack p flags) ≡ some p)
      × (get_flags (pack p flags) ≡ flags % 2 ^ 16)
      × (pack p flags < 2 ^ 24)
unfolding get_phase get_flags pack
get-pack inited flags = ground arith
get-pack p flags = ground arith

-- The state word, unpacked.
pub record State : Type 0 where
  pub phase : Phase
  pub flags : ℕ

-- Bits of `PollEventType`.
abbrev pub event_timeout : ℕ
event_timeout = 1

abbrev pub event_custom : ℕ
event_custom = 8

abbrev pub event_cancelled : ℕ
event_cancelled = 256

abbrev pub event_closed : ℕ
event_closed = 512

pub data Status : Type 0 where
  st_inited st_listen st_trigger st_final st_cannel : Status

pub get_status : State → Status
get_status s = elim s.phase [
  | inited ↦ st_inited
  | arming ↦ st_listen
  | armed ↦ st_listen
  | parked ↦ st_listen
  | pending ↦ st_trigger
  | triggering ↦ st_trigger
  | final ↦ st_final
  | cancelled ↦ st_cannel
]

pub is_listening : State → Bool
is_listening s = elim s.phase [ arming ↦ true | armed ↦ true | parked ↦ true | _ ↦ false ]

pub is_final : State → Bool
is_final s = elim s.phase [ final ↦ true | cancelled ↦ true | _ ↦ false ]
