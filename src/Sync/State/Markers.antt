-- ===== src/Sync/State/Markers.antt =====
-- The markers of a row of `sync_state` (src/ntulearn_skill/sync/state.py): the latest attempt, the
-- latest success and the latest complete observation, each a time and the run that it belongs to.
use ntulearn_skill.Prelude.{if◌then◌else◌, ℕ, ◌≡◌, refl, ap, Option, none, some, arith}
use ntulearn_skill.Core.Models.{Instant}
use ntulearn_skill.Sync.State.Row.{SyncStateRow, is_newer, supersedes, later_time, max_time, merge}

abbrev pub Marker : Type 0
Marker = Instant × ℕ

-- The later of two markers, by time and then by run.
abbrev pub later : Marker → Marker → Marker
later (e_at, e_key) (s_at, s_key) =
    if is_newer e_at e_key s_at s_key then (e_at, e_key) else (s_at, s_key)

abbrev pub later? : Option Marker → Option Marker → Option Marker
later? none s = s
later? (some e) none = some e
later? (some e) (some s) = some (later e s)

pub later_comm : (a b : Marker) → later a b ≡ later b a
later_comm (a, k) (b, l) = ground arith

pub later_assoc : (a b c : Marker) → later (later a b) c ≡ later a (later b c)
later_assoc (a, k) (b, l) (c, m) = ground arith

pub later?_comm : (a b : Option Marker) → later? a b ≡ later? b a
later?_comm none none = refl
later?_comm none (some b) = refl
later?_comm (some a) none = refl
later?_comm (some a) (some b) = ap some (later_comm a b)

pub later?_assoc : (a b c : Option Marker) → later? (later? a b) c ≡ later? a (later? b c)
later?_assoc none b c = refl
later?_assoc (some a) none c = refl
later?_assoc (some a) (some b) none = refl
later?_assoc (some a) (some b) (some c) = ap some (later_assoc a b c)

-- The two columns of a marker as one value.
abbrev pub marker : Option Instant → Option ℕ → Option Marker
marker (some at) (some key) = some (at, key)
marker _ _ = none

-- Both columns are filled, or neither is.
abbrev pub IsPaired : Option Instant → Option ℕ → Type 0
IsPaired none none = Unit
IsPaired none (some _) = ⊥
IsPaired (some _) none = ⊥
IsPaired (some _) (some _) = Unit

abbrev merged_key : Option Instant → Option ℕ → Option Instant → Option ℕ → Option ℕ
merged_key e_at e_key s_at s_key = if supersedes e_at e_key s_at s_key then e_key else s_key

pub marker-merged :
    (e_at e_key s_at s_key : Option ℕ)
    → IsPaired e_at e_key
    → IsPaired s_at s_key
    → marker (later_time e_at s_at) (merged_key e_at e_key s_at s_key)
      ≡ later? (marker e_at e_key) (marker s_at s_key)
marker-merged none none none none p q = refl
marker-merged none none (some b) (some l) p q = refl
marker-merged (some a) (some k) none none p q = refl
marker-merged (some a) (some k) (some b) (some l) p q = ground arith
marker-merged none (some k) s_at s_key p q = elim p [ ]
marker-merged (some a) none s_at s_key p q = elim p [ ]
marker-merged none none none (some l) p q = elim q [ ]
marker-merged none none (some b) none p q = elim q [ ]
marker-merged (some a) (some k) none (some l) p q = elim q [ ]
marker-merged (some a) (some k) (some b) none p q = elim q [ ]

pub IsPaired-merged :
    (e_at e_key s_at s_key : Option ℕ)
    → IsPaired e_at e_key
    → IsPaired s_at s_key
    → IsPaired (later_time e_at s_at) (merged_key e_at e_key s_at s_key)
IsPaired-merged none none none none p q = tt
IsPaired-merged none none (some b) (some l) p q = tt
IsPaired-merged (some a) (some k) none none p q = tt
IsPaired-merged (some a) (some k) (some b) (some l) p q = ground arith
IsPaired-merged none (some k) s_at s_key p q = elim p [ ]
IsPaired-merged (some a) none s_at s_key p q = elim p [ ]
IsPaired-merged none none none (some l) p q = elim q [ ]
IsPaired-merged none none (some b) none p q = elim q [ ]
IsPaired-merged (some a) (some k) none (some l) p q = elim q [ ]
IsPaired-merged (some a) (some k) (some b) none p q = elim q [ ]

pub record Markers : Type 0 where
  pub attempt : Marker
  pub success : Option Marker
  pub full : Option Marker

unfoldable pub markers : SyncStateRow → Markers
markers r = record {
  attempt = (r.last_attempt_at, r.latest_attempt_run_key);
  success = marker r.last_success_at r.latest_success_run_key;
  full = marker r.last_complete_at r.latest_complete_run_key;
}

unfoldable pub join : Markers → Markers → Markers
join e s = record {
  attempt = later e.attempt s.attempt;
  success = later? e.success s.success;
  full = later? e.full s.full;
}

-- Both optional markers of a row are paired.
pub record HasMarkers (r : SyncStateRow) : Type 0 where
  pub success : IsPaired r.last_success_at r.latest_success_run_key
  pub full : IsPaired r.last_complete_at r.latest_complete_run_key

pub merged_attempt :
    (e_at e_key s_at s_key : ℕ)
    → (max_time s_at e_at, if is_newer e_at e_key s_at s_key then e_key else s_key)
      ≡ later (e_at, e_key) (s_at, s_key)
merged_attempt e_at e_key s_at s_key = ground arith

-- The upsert joins the markers of the new row and of the stored row.
pub markers-merge :
    (e s : SyncStateRow)
    → HasMarkers e
    → HasMarkers s
    → markers (merge e s) ≡ join (markers e) (markers s)
unfolding markers merge join
markers-merge e s p q = λ i. record {
  attempt =
      merged_attempt e.last_attempt_at e.latest_attempt_run_key s.last_attempt_at
        s.latest_attempt_run_key i;
  success =
      marker-merged e.last_success_at e.latest_success_run_key s.last_success_at
        s.latest_success_run_key p.success q.success i;
  full =
      marker-merged e.last_complete_at e.latest_complete_run_key s.last_complete_at
        s.latest_complete_run_key p.full q.full i;
}

pub HasMarkers-merge : (e s : SyncStateRow) → HasMarkers e → HasMarkers s → HasMarkers (merge e s)
unfolding merge
HasMarkers-merge e s p q = record {
  success =
      IsPaired-merged e.last_success_at e.latest_success_run_key s.last_success_at
        s.latest_success_run_key p.success q.success;
  full =
      IsPaired-merged e.last_complete_at e.latest_complete_run_key s.last_complete_at
        s.latest_complete_run_key p.full q.full;
}

pub join_comm : (a b : Markers) → join a b ≡ join b a
unfolding join
join_comm a b = λ i. record {
  attempt = later_comm a.attempt b.attempt i;
  success = later?_comm a.success b.success i;
  full = later?_comm a.full b.full i;
}

pub join_assoc : (a b c : Markers) → join (join a b) c ≡ join a (join b c)
unfolding join
join_assoc a b c = λ i. record {
  attempt = later_assoc a.attempt b.attempt c.attempt i;
  success = later?_assoc a.success b.success c.success i;
  full = later?_assoc a.full b.full c.full i;
}
