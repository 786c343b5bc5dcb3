-- ===== src/Sync/State/Calendar.antt =====
-- Where the time at which a scope becomes stale exists (src/ntulearn_skill/sync/state.py): no time is
-- past the year 9999.
use ntulearn_skill.Prelude.{
  Bool-cases, All, ok, ℕ, ◌+◌, ◌≤◌, ◌≡◌, refl, inl, inr, Bool, true, false, ◌&&◌, Option, none,
  some, List, [], ◌∷◌, arith,
}
use ntulearn_skill.Core.Models.{is_complete, Instant, Duration, max_instant, add_duration-ok}
use ntulearn_skill.Sync.State.{is_succeeded, ScopeKey}
use ntulearn_skill.Sync.State.Row.{SyncStateRow, same_scope, later_time, merge, upsert}
use ntulearn_skill.Sync.State.Repository.{
  selects, select, seconds_to_age, Attempt, when, attempt_row, stale_of, set_stale,
}
use ntulearn_skill.Sync.State.Validity.{if_keeps}
use ntulearn_skill.Sync.State.Lookup.{written}
use ntulearn_skill.Sync.State.Stored.{new_row}

-- The last complete observation plus the maximum age is a time.
abbrev pub Fits : Option Instant → Option Duration → Type 0
Fits none age = Unit
Fits (some at) none = Unit
Fits (some at) (some age) = at + age ≤ max_instant

abbrev pub stale_value : Option Instant → Option Duration → Option Instant
stale_value none age = none
stale_value (some at) none = none
stale_value (some at) (some age) = some (at + age)

pub stale_of-Fits :
    (at : Option Instant) (age : Option Duration)
    → Fits at age
    → stale_of at age ≡ ok (stale_value at age)
unfolding stale_of
stale_of-Fits none age h = refl
stale_of-Fits (some at) none h = refl
stale_of-Fits (some at) (some age) h = rw (add_duration-ok at age h)

abbrev pub IsBelow : ℕ → Option ℕ → Type 0
IsBelow bound none = Unit
IsBelow bound (some n) = n ≤ bound

-- The times of a row are at most `latest`, its maximum age is at most `longest`.
pub record IsDated (latest : Instant) (longest : Duration) (r : SyncStateRow) : Type 0 where
  pub complete : IsBelow latest r.last_complete_at
  pub age : IsBelow longest (seconds_to_age r.max_age_seconds)

IsBelow-Fits :
    (latest : Instant) (longest : Duration) (at : Option Instant) (age : Option Duration)
    → latest + longest ≤ max_instant
    → IsBelow latest at
    → IsBelow longest age
    → Fits at age
IsBelow-Fits latest longest none age h p q = tt
IsBelow-Fits latest longest (some at) none h p q = tt
IsBelow-Fits latest longest (some at) (some age) h p q = omega (arith, h, p, q)

pub IsDated-Fits :
    (latest : Instant) (longest : Duration) (r : SyncStateRow)
    → latest + longest ≤ max_instant
    → IsDated latest longest r
    → Fits r.last_complete_at (seconds_to_age r.max_age_seconds)
IsDated-Fits latest longest r h d =
    IsBelow-Fits latest longest r.last_complete_at (seconds_to_age r.max_age_seconds) h d.complete
      d.age

later_time-IsBelow :
    (latest : Instant) (e s : Option Instant)
    → IsBelow latest e
    → IsBelow latest s
    → IsBelow latest (later_time e s)
later_time-IsBelow latest none s p q = q
later_time-IsBelow latest (some e) none p q = p
later_time-IsBelow latest (some e) (some s) p q = ground arith

-- The upsert keeps times and ages within their bounds.
pub merge-IsDated :
    (latest : Instant) (longest : Duration) (e s : SyncStateRow)
    → IsDated latest longest e
    → IsDated latest longest s
    → IsDated latest longest (merge e s)
unfolding merge
merge-IsDated latest longest e s p q = record {
  complete = later_time-IsBelow latest e.last_complete_at s.last_complete_at p.complete q.complete;
  age = if_keeps (λ (n : Option ℕ). IsBelow longest (seconds_to_age n)) _ p.age q.age;
}

pub upsert-IsDated :
    (latest : Instant) (longest : Duration) (e : SyncStateRow) (rows : List SyncStateRow)
    → IsDated latest longest e
    → All (IsDated latest longest) rows
    → All (IsDated latest longest) (upsert e rows)
unfolding upsert
upsert-IsDated latest longest e [] p h = (p, tt)
upsert-IsDated latest longest e (s ∷ rows) p h =
    if_keeps (All (IsDated latest longest)) (same_scope e s)
      (merge-IsDated latest longest e s p h.0, h.1)
      (h.0, upsert-IsDated latest longest e rows p h.1)

pub set_stale-IsDated :
    (latest : Instant) (longest : Duration) (scope : ScopeKey) (stale : Option Instant)
    (rows : List SyncStateRow)
    → All (IsDated latest longest) rows
    → All (IsDated latest longest) (set_stale scope stale rows)
unfolding set_stale
set_stale-IsDated latest longest scope stale [] h = tt
set_stale-IsDated latest longest scope stale (r ∷ rows) (p, h) =
    if_keeps (All (IsDated latest longest)) (selects scope r)
      (record { complete = p.complete; age = p.age }, h)
      (p, set_stale-IsDated latest longest scope stale rows h)

pub written-IsDated :
    (latest : Instant) (longest : Duration) (scope : ScopeKey) (e : SyncStateRow)
    (rows : List SyncStateRow)
    → IsDated latest longest e
    → All (IsDated latest longest) rows
    → IsDated latest longest (written e (select scope rows))
unfolding select
written-IsDated latest longest scope e [] p h = p
written-IsDated latest longest scope e (r ∷ rows) p h = elim (Bool-cases (selects scope r)) [
  | inl same ↦ rw same (merge-IsDated latest longest e r p h.0)
  | inr other ↦ rw other (written-IsDated latest longest scope e rows p h.1)
]

when-IsBelow : (b : Bool) (latest at : Instant) → at ≤ latest → IsBelow latest (when b at)
when-IsBelow true latest at h = h
when-IsBelow false latest at h = tt

pub new_row-IsDated :
    (latest : Instant) (longest : Duration) (scope : ScopeKey) (a : Attempt) (at : Instant)
    (seconds : Option ℕ)
    → at ≤ latest
    → IsBelow longest (seconds_to_age seconds)
    → IsDated latest longest (new_row scope a at seconds)
unfolding attempt_row
new_row-IsDated latest longest scope a at seconds le age = record {
  complete = when-IsBelow (is_succeeded a.outcome && is_complete a.coverage) latest at le;
  age = age;
}
