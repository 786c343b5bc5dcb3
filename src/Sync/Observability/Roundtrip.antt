-- ===== src/Sync/Observability/Roundtrip.antt =====
-- src/ntulearn_skill/sync/observability.py: `start`, `record_scope` and `finish` of one run.
use ntulearn_skill.Prelude.{
  ◌==◌, Bool-cases, any, count_if, All, is_blank, ok, ℕ, String, ◌≡◌, refl, ap, ◌∙◌, inl, inr, true,
  false, Option, some, List, [], ◌∷◌, ◌++◌, arith,
}
use ntulearn_skill.Core.Models.{SyncRunStatus, Instant}
use ntulearn_skill.Sync.Models.{SyncWarning, ScopeResult}
use ntulearn_skill.Sync.Observability.{
  RequestField, Count, SyncRunRow, ScopeRow, Book, SyncRunResult, upsert_provider, is_unsafe,
  next_key, new_run, start, has_run,
}
use ntulearn_skill.Sync.Observability.Finish.{
  is_running, is_negative_count, find_run, scopes_of, run_result, get, end_run, is_open, end_runs,
  finish,
}
use ntulearn_skill.Sync.Observability.Recorded.{
  has_run-above, next_key-positive, record_all, WellFormed, IsRecordable, record_all-scopes_of,
}
use mathlib.Core.Path.{subst}

-- The rows after a run was added, and after it was ended.
find_run-append :
    (key : ℕ) (runs : List SyncRunRow) (r : SyncRunRow)
    → has_run key runs ≡ false
    → r.key ≡ key
    → find_run key (runs ++ r ∷ []) ≡ some r
unfolding find_run
find_run-append key [] r h e = ground (arith)
find_run-append key (s ∷ runs) r h e = ground (arith, find_run-append key runs r)

end_runs-append :
    (key : ℕ) (f : SyncRunRow → SyncRunRow) (runs : List SyncRunRow) (r : SyncRunRow)
    → has_run key runs ≡ false
    → is_open key r ≡ true
    → end_runs key f (runs ++ r ∷ []) ≡ runs ++ f r ∷ []
unfolding end_runs
end_runs-append key f [] r h e = ground (arith)
end_runs-append key f (s ∷ runs) r h e = ground (arith, end_runs-append key f runs r)

open-append :
    (key : ℕ) (runs : List SyncRunRow) (r : SyncRunRow)
    → has_run key runs ≡ false
    → is_open key r ≡ true
    → count_if (is_open key) (runs ++ r ∷ []) ≡ 1
open-append key [] r h e = ground (arith)
open-append key (s ∷ runs) r h e = ground (arith, open-append key runs r)

has_run-append :
    (key : ℕ) (runs : List SyncRunRow) (r : SyncRunRow)
    → r.key ≡ key
    → has_run key (runs ++ r ∷ []) ≡ true
has_run-append key [] r e = ground (arith)
has_run-append key (s ∷ runs) r e = ground (arith, has_run-append key runs r)

-- No scope is of a run that is not there.
scopes_of-fresh :
    (key : ℕ) (book : Book) (rows : List ScopeRow)
    → has_run key book.runs ≡ false
    → All (λ row. has_run row.run_key book.runs ≡ true) rows
    → scopes_of key book.courses rows ≡ []
unfolding scopes_of
scopes_of-fresh key book [] h a = refl
scopes_of-fresh key book (row ∷ rows) h (k, a) = elim (Bool-cases (row.run_key == key)) [
  | inl e ↦
      let e' : row.run_key ≡ key = ground (arith) in
      let h' = subst (λ n. has_run n book.runs ≡ true) e' k in cc
  | inr e ↦ rw e (scopes_of-fresh key book rows h a)
]

get-last :
    (key : ℕ) (ended : SyncRunRow) (runs : List SyncRunRow) (now : Instant) (book : Book)
    → has_run key runs ≡ false
    → ended.key ≡ key
    → ended.ended_at ≡ some now
    → get key (record book { runs = runs ++ ended ∷ [] })
      ≡ ok (run_result ended now (scopes_of key book.courses book.scopes))
unfolding get
get-last key ended runs now book h e n =
    rw (find_run-append key runs ended h e, n)
      (ap (λ k. ok (run_result ended now (scopes_of k book.courses book.scopes))) e)

-- `finish` for a run that is open and was added last.
finish-last :
    (key : ℕ) (run : SyncRunRow) (runs : List SyncRunRow) (status : SyncRunStatus)
    (counts : List Count) (warnings : List SyncWarning) (category : Option String) (now : Instant)
    (book : Book)
    → (key == 0) ≡ false
    → is_running status ≡ false
    → any is_negative_count counts ≡ false
    → book.runs ≡ runs ++ run ∷ []
    → has_run key runs ≡ false
    → run.key ≡ key
    → is_running run.status ≡ true
    → let ended = end_run status counts warnings category now run in
      let after = record book { runs = runs ++ ended ∷ [] } in
      let result = run_result ended now (scopes_of key book.courses book.scopes) in
      (finish key status counts warnings category now book ≡ ok (result, after))
      × (get key after ≡ ok result)
unfolding finish
finish-last key run runs status counts warnings category now book z s c b h e o =
    let opened : is_open key run ≡ true = ground (arith) in
    let ending = end_run status counts warnings category now in
    let got = get-last key (ending run) runs now book h e refl in
    (
      rw
          (
            z,
            s,
            c,
            b,
            open-append key runs run h opened,
            end_runs-append key ending runs run h opened,
            got,
          )
          refl,
      got,
    )

abbrev pub completed :
    ℕ
    → String
    → Instant
    → Instant
    → SyncRunStatus
    → List Count
    → List SyncWarning
    → Option String
    → List ScopeResult
    → SyncRunResult
completed key mode started_at ended_at status counts warnings category scopes = record {
  key = key;
  mode = mode;
  started_at = started_at;
  ended_at = ended_at;
  status = status;
  counts = counts;
  warnings = warnings;
  error_category = category;
  scopes = scopes;
}

-- A run that `start` adds, the scopes that `record_scope` adds for it one after the other, and then
-- `finish` with an ended status and counts that are not negative, all return. The result has the mode,
-- the two times, the status, the counts, the warnings and the category that were given, and exactly
-- the scopes recorded, in their order; `get` returns it again. It is supposed that the mode and the
-- controls are safe, that the courses of the tables have distinct keys, that the scopes there belong
-- to runs, and that every new scope is of the provider, and of no course or of an observed one of the
-- provider.
pub run-recorded :
    (provider mode : String) (controls : List RequestField) (started_at ended_at : Instant)
    (scopes : List ScopeResult) (status : SyncRunStatus) (counts : List Count)
    (warnings : List SyncWarning) (category : Option String) (book : Book)
    → is_blank mode ≡ false
    → any is_unsafe controls ≡ false
    → WellFormed book
    → All (IsRecordable provider book.courses) scopes
    → is_running status ≡ false
    → any is_negative_count counts ≡ false
    → (key : ℕ) × (started : Book) × (recorded : Book) × (ended : Book) × let result =
          completed key mode started_at ended_at status counts warnings category scopes in
        (start provider mode controls started_at book ≡ ok (key, started))
        × (record_all provider key scopes started ≡ ok recorded)
        × (finish key status counts warnings category ended_at recorded ≡ ok (result, ended))
        × (get key ended ≡ ok result)
unfolding start
run-recorded provider mode controls started_at ended_at scopes status counts warnings category book
      m u (d, w) r s c =
    let key = next_key book.runs in
    let run = new_run key mode controls started_at in
    let fresh = has_run-above key book.runs (omega arith) in
    let z : (key == 0) ≡ false = ground (arith, next_key-positive book.runs) in
    let started : Book = record book {
      providers = upsert_provider provider started_at book.providers;
      runs = book.runs ++ run ∷ [];
    } in
    let (recorded, e, cs, rs, all_scopes) =
      record_all-scopes_of provider key scopes started z (has_run-append key book.runs run refl) d
        r in
    let (f, g) =
      finish-last key run book.runs status counts warnings category ended_at recorded z s c rs fresh
        refl refl in
    let read : scopes_of key recorded.courses recorded.scopes ≡ scopes =
      ap (λ l. scopes_of key l recorded.scopes) cs
      ∙ all_scopes
      ∙ ap (λ l. l ++ scopes) (scopes_of-fresh key book book.scopes fresh w) in
    let ended : Book = record recorded {
      runs = book.runs ++ end_run status counts warnings category ended_at run ∷ [];
    } in
    (
      key,
      started,
      recorded,
      ended,
      (
        rw (m, u) refl,
        e,
        subst
            (λ l.
              finish key status counts warnings category ended_at recorded
              ≡ ok
                  (completed key mode started_at ended_at status counts warnings category l, ended))
            read f,
        subst
            (λ l.
              get key ended
              ≡ ok (completed key mode started_at ended_at status counts warnings category l))
            read g,
      ),
    )
