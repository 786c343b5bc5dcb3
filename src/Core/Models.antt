-- ===== src/Core/Models.antt =====
-- src/ntulearn_skill/core/models.py: the shared vocabularies, and times.
--
-- An aware `datetime` is the instant that it names, in microseconds since year 1. The text that
-- `to_storage_time` writes has a fixed width, so texts compare as the instants do, and a stored
-- time is the instant again. A `timedelta` is a number of microseconds; a negative one, which
-- each use refuses as it refuses zero, is not represented. No `datetime` is past the year 9999: a
-- sum that is raises `OverflowError`; the times that are added to are in UTC.
use ntulearn_skill.Prelude.{
  leb, if◌then◌else◌, ℕ, ◌+◌, ◌≤◌, ◌≡◌, Bool, true, false, Result, ok, err, value_error,
  other_error, arith,
}

pub data Availability : Type 0 where
  active missing unavailable removed_confirmed unknown : Availability

pub data Coverage : Type 0 where
  complete partial stale unknown failed : Coverage

pub data SyncRunStatus : Type 0 where
  running succeeded succeeded_with_warnings failed cancelled : SyncRunStatus

pub data ObservationStatus : Type 0 where
  observed not_observed unavailable unknown : ObservationStatus

pub data FetchDecision : Type 0 where
  fetched reused_verified deferred not_needed failed : FetchDecision

-- `coverage is Coverage.COMPLETE`
abbrev pub is_complete : Coverage → Bool
is_complete Coverage.complete = true
is_complete _ = false

abbrev pub Instant : Type 0
Instant = ℕ

abbrev pub Duration : Type 0
Duration = ℕ

pub data DateTime : Type 0 where
  naive : ℕ → DateTime
  aware : Instant → DateTime

unfoldable pub to_storage_time : DateTime → Result Instant
to_storage_time (DateTime.naive _) = err (value_error "timestamps must be timezone-aware")
to_storage_time (DateTime.aware t) = ok t

unfoldable pub from_storage_time : Instant → DateTime
from_storage_time t = DateTime.aware t

-- `datetime.max`
abbrev pub max_instant : Instant
max_instant = 315537897599999999

-- `datetime + timedelta`
unfoldable pub add_duration : Instant → Duration → Result Instant
add_duration at age =
    if leb (at + age) max_instant then ok (at + age) else err (other_error "OverflowError")

pub add_duration-ok :
    (at : Instant) (age : Duration) → at + age ≤ max_instant → add_duration at age ≡ ok (at + age)
unfolding add_duration
add_duration-ok at age h = ground arith

-- A sum that is returned is in range.
pub add_duration-inv :
    (at : Instant) (age : Duration) {t : Instant}
    → add_duration at age ≡ ok t
    → at + age ≤ max_instant
unfolding add_duration
add_duration-inv at age e = ground arith
