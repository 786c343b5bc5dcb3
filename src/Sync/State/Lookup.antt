-- ===== src/Sync/State/Lookup.antt =====
-- Which row of `sync_state` (src/ntulearn_skill/sync/state.py) a scope selects after the statements
-- of `record_attempt` have run.
use ntulearn_skill.Prelude.{
  Bool-cases, String, ◌≡◌, refl, ap, inl, inr, true, false, Option, none, some, List, [], ◌∷◌,
  arith, ◌==ₛ◌, eq_iff,
}
use ntulearn_skill.Core.Models.{Instant}
use ntulearn_skill.Sync.State.{ScopeKey, WindowKey, window_key}
use ntulearn_skill.Sync.State.Row.{SyncStateRow, same_text?, same_window, same_scope, merge, upsert}
use ntulearn_skill.Sync.State.Repository.{course_value, selects, select, set_stale}

str_eq_comm : (a b : String) → (a ==ₛ b) ≡ (b ==ₛ a)
str_eq_comm a b = ground (arith, eq_iff a b, eq_iff b a)

str_eq_self : (a : String) → (a ==ₛ a) ≡ true
str_eq_self a = (eq_iff a a).1 refl

same_text?_comm : (a b : Option String) → same_text? a b ≡ same_text? b a
same_text?_comm none none = refl
same_text?_comm none (some b) = refl
same_text?_comm (some a) none = refl
same_text?_comm (some a) (some b) = str_eq_comm a b

same_text?_self : (a : Option String) → same_text? a a ≡ true
same_text?_self none = refl
same_text?_self (some a) = str_eq_self a

same_window_comm : (a b : WindowKey) → same_window a b ≡ same_window b a
same_window_comm none none = refl
same_window_comm none (some b) = refl
same_window_comm (some a) none = refl
same_window_comm (some (a, b)) (some (c, d)) = ground arith

same_window_self : (a : WindowKey) → same_window a a ≡ true
same_window_self none = refl
same_window_self (some (a, b)) = ground arith

-- A row carries the key of a scope.
pub record HasKey (scope : ScopeKey) (e : SyncStateRow) : Type 0 where
  pub provider : e.provider ≡ scope.provider
  pub course : e.course ≡ course_value scope.course_id
  pub data_kind : e.data_kind ≡ scope.data_kind
  pub window : e.window ≡ window_key scope

pub HasKey-selects : (scope : ScopeKey) (e : SyncStateRow) → HasKey scope e → selects scope e ≡ true
unfolding selects
HasKey-selects scope e k =
    rw (k.provider, k.course, k.data_kind, k.window)
      (ground (
        arith,
        str_eq_self scope.provider,
        same_text?_self (course_value scope.course_id),
        str_eq_self scope.data_kind,
        same_window_self (window_key scope),
      ))

-- The unique index and the `WHERE` clause single out the same rows.
pub same_scope-selects :
    (scope : ScopeKey) (e s : SyncStateRow) → HasKey scope e → same_scope e s ≡ selects scope s
unfolding same_scope selects
same_scope-selects scope e s k =
    rw (k.provider, k.course, k.data_kind, k.window)
      (rw (
        str_eq_comm scope.provider s.provider,
        same_text?_comm (course_value scope.course_id) s.course,
        str_eq_comm scope.data_kind s.data_kind,
        same_window_comm (window_key scope) s.window,
      ))

-- The row of the scope after the upsert.
abbrev pub written : SyncStateRow → Option SyncStateRow → SyncStateRow
written e none = e
written e (some s) = merge e s

selects-merge :
    (scope : ScopeKey) (e s : SyncStateRow) → selects scope (merge e s) ≡ selects scope s
unfolding selects merge
selects-merge scope e s = refl

pub select-upsert :
    (scope : ScopeKey) (e : SyncStateRow) (rows : List SyncStateRow)
    → HasKey scope e
    → select scope (upsert e rows) ≡ some (written e (select scope rows))
unfolding select upsert
select-upsert scope e [] k = rw (HasKey-selects scope e k)
select-upsert scope e (s ∷ rows) k =
    rw (same_scope-selects scope e s k) (elim (Bool-cases (selects scope s)) [
      | inl same ↦ rw same (rw (selects-merge scope e s) (rw same))
      | inr other ↦ rw other (rw other (select-upsert scope e rows k))
    ])

-- A scope with another key keeps its row.
pub select-upsert_other :
    (scope other : ScopeKey) (e : SyncStateRow) (rows : List SyncStateRow)
    → HasKey scope e
    → ((row : SyncStateRow) → selects scope row ≡ true → selects other row ≡ false)
    → select other (upsert e rows) ≡ select other rows
unfolding select upsert
select-upsert_other scope other e [] k d = rw (d e (HasKey-selects scope e k))
select-upsert_other scope other e (s ∷ rows) k d =
    rw (same_scope-selects scope e s k) (elim (Bool-cases (selects scope s)) [
      | inl same ↦ rw same (rw (selects-merge other e s) (rw (d s same)))
      | inr differs ↦ rw (differs, select-upsert_other scope other e rows k d)
    ])

abbrev pub restale : Option Instant → Option SyncStateRow → Option SyncStateRow
restale stale none = none
restale stale (some row) = some (record row { stale_after = stale })

selects-stale :
    (scope : ScopeKey) (stale : Option Instant) (row : SyncStateRow)
    → selects scope (record row { stale_after = stale }) ≡ selects scope row
unfolding selects
selects-stale scope stale row = refl

pub select-set_stale :
    (scope : ScopeKey) (stale : Option Instant) (rows : List SyncStateRow)
    → select scope (set_stale scope stale rows) ≡ restale stale (select scope rows)
unfolding select set_stale
select-set_stale scope stale [] = refl
select-set_stale scope stale (row ∷ rows) = elim (Bool-cases (selects scope row)) [
  | inl same ↦ rw same (rw (selects-stale scope stale row) (rw same))
  | inr other ↦ rw other (rw other (select-set_stale scope stale rows))
]

pub select-set_stale_other :
    (scope other : ScopeKey) (stale : Option Instant) (rows : List SyncStateRow)
    → ((row : SyncStateRow) → selects scope row ≡ true → selects other row ≡ false)
    → select other (set_stale scope stale rows) ≡ select other rows
unfolding select set_stale
select-set_stale_other scope other stale [] d = refl
select-set_stale_other scope other stale (row ∷ rows) d = elim (Bool-cases (selects scope row)) [
  | inl same ↦ rw same (rw (selects-stale other stale row) (rw (d row same)))
  | inr differs ↦ rw (differs, select-set_stale_other scope other stale rows d)
]

str_eq-eq : (a b : String) → (a ==ₛ b) ≡ true → a ≡ b
str_eq-eq a b h = (eq_iff a b).0 h

same_text?-eq : (a b : Option String) → same_text? a b ≡ true → a ≡ b
same_text?-eq none none h = refl
same_text?-eq none (some b) h = cc
same_text?-eq (some a) none h = cc
same_text?-eq (some a) (some b) h = ap some (str_eq-eq a b h)

same_window-eq : (a b : WindowKey) → same_window a b ≡ true → a ≡ b
same_window-eq none none h = refl
same_window-eq none (some b) h = cc
same_window-eq (some a) none h = cc
same_window-eq (some (a, b)) (some (c, d)) h = ground arith

-- A scope selects the rows of its key only.
pub selects-HasKey : (scope : ScopeKey) (e : SyncStateRow) → selects scope e ≡ true → HasKey scope e
unfolding selects
selects-HasKey scope e h = record {
  provider = str_eq-eq e.provider scope.provider (ground arith);
  course = same_text?-eq e.course (course_value scope.course_id) (ground arith);
  data_kind = str_eq-eq e.data_kind scope.data_kind (ground arith);
  window = same_window-eq e.window (window_key scope) (ground arith);
}

-- A scope that passes over a row passes over every row of that key.
pub selects-other :
    (scope other : ScopeKey) (e row : SyncStateRow)
    → HasKey scope e
    → selects other e ≡ false
    → selects scope row ≡ true
    → selects other row ≡ false
unfolding selects
selects-other scope other e row k d h =
    let r = selects-HasKey scope row h in
    rw
      (
        r.provider,
        r.course,
        r.data_kind,
        r.window,
        ← k.provider,
        ← k.course,
        ← k.data_kind,
        ← k.window,
      )
      d
