-- ===== src/Sync/Observability.antt =====
-- src/ntulearn_skill/sync/observability.py: the rows of runs and scopes, and `SyncRunRecorder`. A
-- transaction that raises leaves the tables alone.
pub mod Finish
mod Tests
pub mod Once
pub mod Roundtrip
pub mod Recorded
use ntulearn_skill.Prelude.{
  ltb, leb, ◌==◌, if◌then◌else◌, is_none, is_some, opt_eq, Bool-cases, Option-cases, length, any,
  all, count_if, All, length-append, append_nil, append_assoc, any-append, All-imp, All-both,
  All-append, contains, codes, text_length, is_space, is_blank, one_of, Error, type_error,
  value_error, assertion_error, storage_error, local_job_error, local_job_contract_mismatch,
  other_error, Result, err, ok, raise_if, ◌>>=◌, ◌>>◌, >>=-returns, Result-cases, ℕ, zero, suc, ◌+◌,
  ◌-◌, ◌*◌, ◌/◌, ◌%◌, ◌≤◌, ◌<◌, String, ◌≡◌, refl, sym, ap, ◌∙◌, ◌≢◌, ◌↔◌, ◌⊎◌, inl, inr, Bool,
  true, false, ◌&&◌, ◌||◌, not, Option, none, some, List, [], ◌∷◌, ◌++◌, map, arith, ◌==ₛ◌, eq_iff,
}
use ntulearn_skill.Core.Models.{
  Availability, Coverage, SyncRunStatus, ObservationStatus, FetchDecision, is_complete, Instant,
  Duration, DateTime, to_storage_time, from_storage_time,
}
use ntulearn_skill.Core.Identifiers.{
  RemoteId, CourseId, ContentId, AttachmentId, make_remote_id, same_id, same_id_iff,
}
use ntulearn_skill.Sync.Models.{SyncWarning, ScopeResult}
use ntulearn_skill.Prelude.Json.{ℤ}
use ntulearn_skill.Sync.Lifecycle.{Course}

-- A value of the requested scope.
pub data Control : Type 0 where
  flag : Bool → Control
  number : ℤ → Control
  text : String → Control

pub record RequestField : Type 0 where
  pub name : String
  pub value : Control

pub record Count : Type 0 where
  pub name : String
  pub value : ℤ

-- A row of `sync_run`.
pub record SyncRunRow : Type 0 where
  pub key : ℕ
  pub mode : String
  pub requested_scope : List RequestField
  pub started_at : Instant
  pub ended_at : Option Instant
  pub status : SyncRunStatus
  pub counts : List Count
  pub warnings : List SyncWarning
  pub error_category : Option String

-- A row of `sync_scope_result`; its key is its place in the table, and the provider stands for its key.
pub record ScopeRow : Type 0 where
  pub run_key : ℕ
  pub provider : String
  pub course_key : Option ℕ
  pub data_kind : String
  pub coverage : Coverage
  pub pages_seen : ℕ
  pub items_seen : ℕ
  pub pagination_complete : Bool
  pub failure_category : Option String
  pub warnings : List SyncWarning
  pub observed_at : Instant

-- A row of `source_provider`.
pub record ProviderRow : Type 0 where
  pub name : String
  pub created_at : Instant
  pub updated_at : Instant

pub record Book : Type 0 where
  pub providers : List ProviderRow
  pub courses : List Course
  pub runs : List SyncRunRow
  pub scopes : List ScopeRow

pub record SyncRunResult : Type 0 where
  pub key : ℕ
  pub mode : String
  pub started_at : Instant
  pub ended_at : Instant
  pub status : SyncRunStatus
  pub counts : List Count
  pub warnings : List SyncWarning
  pub error_category : Option String
  pub scopes : List ScopeResult

abbrev least : Instant → Instant → Instant
least a b = if leb a b then a else b

abbrev greatest : Instant → Instant → Instant
greatest a b = if leb a b then b else a

-- `_provider_key`, as what it writes.
unfoldable pub upsert_provider : String → Instant → List ProviderRow → List ProviderRow
upsert_provider name at [] = record { name = name; created_at = at; updated_at = at } ∷ []
upsert_provider name at (p ∷ ps) =
    if name ==ₛ p.name
    then record p { created_at = least p.created_at at; updated_at = greatest p.updated_at at } ∷ ps
    else p ∷ upsert_provider name at ps

unfoldable pub find_course_key : CourseId → List Course → Option ℕ
find_course_key id [] = none
find_course_key id (c ∷ cs) = if same_id id c.id then some c.key else find_course_key id cs

-- `_course_key`
unfoldable pub course_key_for : String → Option CourseId → List Course → Result (Option ℕ)
unfolding find_course_key
course_key_for provider none cs = ok none
course_key_for provider (some id) cs = do
  raise_if (not (id.provider ==ₛ provider))
      (value_error "course provider does not match the sync provider")
  raise_if (is_none (find_course_key id cs)) (value_error "sync scope course has not been observed")
  ok (find_course_key id cs)

abbrev is_unsafe_text : String → Bool
is_unsafe_text s =
    ltb 2048 (text_length s)
    || any (λ c. ltb c 32) (codes s)
    || any (λ c. c == 63) (codes s)
    || any (λ c. c == 35) (codes s)

abbrev pub is_unsafe : RequestField → Bool
is_unsafe f =
    not (all (λ c. ltb c 128) (codes f.name))
    || ltb 80 (text_length f.name)
    || elim f.value [ Control.text s ↦ is_unsafe_text s | _ ↦ false ]

-- The key of a new row.
unfoldable pub next_key : List SyncRunRow → ℕ
next_key [] = 1
next_key (r ∷ rs) = greatest (r.key + 1) (next_key rs)

abbrev pub new_run : ℕ → String → List RequestField → Instant → SyncRunRow
new_run key mode requested_scope now = record {
  key = key;
  mode = mode;
  requested_scope = requested_scope;
  started_at = now;
  ended_at = none;
  status = SyncRunStatus.running;
  counts = [];
  warnings = [];
  error_category = none;
}

-- `start`, at the time of the call.
unfoldable pub start : String → String → List RequestField → Instant → Book → Result (ℕ × Book)
unfolding upsert_provider next_key
start provider mode requested_scope now book = do
  raise_if (is_blank mode || any is_unsafe requested_scope)
      (value_error "sync request must contain only safe scalar controls")
  let key = next_key book.runs
  ok (
    key,
    record book {
      providers = upsert_provider provider now book.providers;
      runs = book.runs ++ new_run key mode requested_scope now ∷ [];
    },
  )

abbrev pub has_run : ℕ → List SyncRunRow → Bool
has_run key runs = any (λ r. r.key == key) runs

abbrev pub scope_row : ℕ → Option ℕ → ScopeResult → ScopeRow
scope_row run_key course_key scope = record {
  run_key = run_key;
  provider = scope.provider;
  course_key = course_key;
  data_kind = scope.data_kind;
  coverage = scope.coverage;
  pages_seen = scope.pages_seen;
  items_seen = scope.items_seen;
  pagination_complete = scope.pagination_complete;
  failure_category = scope.failure_category;
  warnings = scope.warnings;
  observed_at = scope.observed_at;
}

-- `record_scope`; a run that is not there violates the foreign key.
unfoldable pub record_scope : String → ℕ → ScopeResult → Book → Result Book
unfolding upsert_provider course_key_for
record_scope provider run_key scope book = do
  raise_if (run_key == 0 || not (scope.provider ==ₛ provider))
      (value_error "sync scope does not belong to this run recorder")
  course_key ← course_key_for provider scope.course_id book.courses
  raise_if (not (has_run run_key book.runs)) (storage_error "sync scope operation failed")
  ok (record book {
    providers = upsert_provider provider scope.observed_at book.providers;
    scopes = book.scopes ++ scope_row run_key course_key scope ∷ [];
  })
