-- ===== src/Sync/State/Row.antt =====
-- src/ntulearn_skill/sync/state.py: a row of the table `sync_state`, and what its upsert
-- (`ON CONFLICT DO UPDATE`) makes of a stored row and a new one.
--
-- A course is named by its remote key and a provider by its name, which stand for their keys in
-- the tables `course` and `source_provider` one to one.
use ntulearn_skill.Prelude.{
  ltb, ◌==◌, if◌then◌else◌, is_some, ℕ, String, Bool, true, false, ◌&&◌, ◌||◌, Option, none, some,
  List, [], ◌∷◌, ◌==ₛ◌,
}
use ntulearn_skill.Core.Models.{Coverage, Instant}
use ntulearn_skill.Sync.Models.{SyncWarning}
use ntulearn_skill.Sync.State.{SyncAttemptOutcome, WindowKey, Capabilities}

pub record SyncStateRow : Type 0 where
  pub provider : String
  pub course : Option String
  pub data_kind : String
  pub window : WindowKey
  pub latest_attempt_run_key : ℕ
  pub latest_success_run_key : Option ℕ
  pub latest_complete_run_key : Option ℕ
  pub coverage : Coverage
  pub capabilities : Capabilities
  pub stale_after : Option Instant
  pub updated_at : Instant
  pub last_attempt_at : Instant
  pub last_attempt_outcome : SyncAttemptOutcome
  pub last_success_at : Option Instant
  pub last_complete_at : Option Instant
  pub warning_codes : List SyncWarning
  pub max_age_seconds : Option ℕ

abbrev pub same_text? : Option String → Option String → Bool
same_text? none none = true
same_text? none (some _) = false
same_text? (some _) none = false
same_text? (some a) (some b) = a ==ₛ b

abbrev pub same_window : WindowKey → WindowKey → Bool
same_window none none = true
same_window none (some _) = false
same_window (some _) none = false
same_window (some (a, b)) (some (c, d)) = (a == c) && (b == d)

-- The unique index of the table: provider, course, kind of data and window.
unfoldable pub same_scope : SyncStateRow → SyncStateRow → Bool
same_scope a b =
    (a.provider ==ₛ b.provider)
    && same_text? a.course b.course
    && (a.data_kind ==ₛ b.data_kind)
    && same_window a.window b.window

-- `e_at > s_at OR (e_at = s_at AND e_key > s_key)`
abbrev pub is_newer : Instant → ℕ → Instant → ℕ → Bool
is_newer e_at e_key s_at s_key = ltb s_at e_at || ((e_at == s_at) && ltb s_key e_key)

-- A marker in the columns for successes and complete observations: a time and a run, or nothing.
-- `e_at IS NOT NULL AND (s_at IS NULL OR e_at > s_at OR (e_at = s_at AND e_key > s_key))`, where a
-- comparison with NULL does not hold.
abbrev pub key_after : Option ℕ → Option ℕ → Bool
key_after (some e) (some s) = ltb s e
key_after _ _ = false

abbrev pub supersedes : Option Instant → Option ℕ → Option Instant → Option ℕ → Bool
supersedes none e_key s_at s_key = false
supersedes (some e) e_key none s_key = true
supersedes (some e) e_key (some s) s_key = ltb s e || ((e == s) && key_after e_key s_key)

-- `CASE WHEN e IS NULL THEN s WHEN s IS NULL THEN e ELSE MAX(s, e) END`
abbrev pub later_time : Option Instant → Option Instant → Option Instant
later_time none s = s
later_time (some e) none = some e
later_time (some e) (some s) = if ltb s e then some e else some s

abbrev pub max_time : Instant → Instant → Instant
max_time s e = if ltb s e then e else s

abbrev pub not_empty : Capabilities → Bool
not_empty [] = false
not_empty (_ ∷ _) = true

-- The `SET` clauses: `e` is `excluded`, the row that was to be inserted, and `s` the stored row.
unfoldable pub merge : SyncStateRow → SyncStateRow → SyncStateRow
merge e s =
    let newer =
      is_newer e.last_attempt_at e.latest_attempt_run_key s.last_attempt_at
        s.latest_attempt_run_key in
    record s {
      latest_attempt_run_key = if newer then e.latest_attempt_run_key else s.latest_attempt_run_key;
      coverage = if newer then e.coverage else s.coverage;
      last_attempt_outcome = if newer then e.last_attempt_outcome else s.last_attempt_outcome;
      warning_codes = if newer then e.warning_codes else s.warning_codes;
      last_attempt_at = max_time s.last_attempt_at e.last_attempt_at;
      latest_success_run_key =
          if supersedes e.last_success_at e.latest_success_run_key s.last_success_at
            s.latest_success_run_key
          then e.latest_success_run_key
          else s.latest_success_run_key;
      last_success_at = later_time e.last_success_at s.last_success_at;
      latest_complete_run_key =
          if supersedes e.last_complete_at e.latest_complete_run_key s.last_complete_at
            s.latest_complete_run_key
          then e.latest_complete_run_key
          else s.latest_complete_run_key;
      last_complete_at = later_time e.last_complete_at s.last_complete_at;
      capabilities = if not_empty e.capabilities && newer then e.capabilities else s.capabilities;
      max_age_seconds =
          if is_some e.max_age_seconds && newer then e.max_age_seconds else s.max_age_seconds;
      updated_at = max_time s.updated_at e.updated_at;
    }

-- The upsert on the whole table: the row of the scope is merged, or the new row is added.
unfoldable pub upsert : SyncStateRow → List SyncStateRow → List SyncStateRow
upsert e [] = e ∷ []
upsert e (s ∷ rows) = if same_scope e s then merge e s ∷ rows else s ∷ upsert e rows
