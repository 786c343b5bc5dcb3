-- ===== src/Sync/Jobs/History.antt =====
-- The queue of src/ntulearn_skill/sync/jobs.py as a state machine: whoever calls its methods, in
-- whatever order and at whatever times, the table stays valid and what has succeeded stays.
use ntulearn_skill.Prelude.{ok, ℕ, String, ◌≡◌, refl, Bool, true, Option, some, List, arith}
use ntulearn_skill.Core.Models.{Instant, Duration, DateTime, to_storage_time}
use ntulearn_skill.Sync.Jobs.{LocalJobKind, is_succeeded, JobRow, LocalJobRecord, Jobs}
use ntulearn_skill.Sync.Jobs.Queue.{find_key, insert_job, write_job, schedule}
use ntulearn_skill.Sync.Jobs.Update.{recover_interrupted, retry_failed, claim, Outcome, finish}
use ntulearn_skill.Sync.Jobs.Validity.{IsValidQueue}
use ntulearn_skill.Prelude.Json.{JsonFields}
use ntulearn_skill.Parsers.Models.{ParserOptions}
use ntulearn_skill.Sync.Jobs.Changes.{
  schedule-Change, finish-Change, retry-Change, recover-Change, claim-Change, Change,
}
use ntulearn_skill.Sync.Jobs.Kept.{Change-IsValidQueue, Change-succeeded}

-- One call that returns, from the table before to the table after.
pub data Step (settings_hash : ParserOptions → String) : Jobs → Jobs → Type 0 where
  scheduled :
      (kind : LocalJobKind) (identity : String) (payload : JsonFields) (depends_on : Option ℕ)
      (max_attempts : ℕ) (at : DateTime) (job : LocalJobRecord) {rows rows' : Jobs}
      → schedule settings_hash kind identity payload depends_on max_attempts at rows
        ≡ ok (job, rows')
      → Step settings_hash rows rows'
  recovered :
      (now : Instant) (keys : Option (List ℕ)) (n : ℕ) {rows rows' : Jobs}
      → recover_interrupted now keys rows ≡ ok (n, rows')
      → Step settings_hash rows rows'
  retried :
      (key : ℕ) (now : Instant) (b : Bool) {rows rows' : Jobs}
      → retry_failed key now rows ≡ ok (b, rows')
      → Step settings_hash rows rows'
  claimed :
      (now : Instant) (lease : Duration) (token : String) (selected : Option (List ℕ))
      (handed : Option (LocalJobRecord × String)) {rows rows' : Jobs}
      → claim settings_hash now lease token selected rows ≡ ok (handed, rows')
      → Step settings_hash rows rows'
  finished :
      (key : ℕ) (token : String) (o : Outcome) (now : Instant) {rows rows' : Jobs}
      → finish key token o now rows ≡ ok rows'
      → Step settings_hash rows rows'

pub data Reach (settings_hash : ParserOptions → String) : Jobs → Jobs → Type 0 where
  here : {rows : Jobs} → Reach settings_hash rows rows
  next :
      {rows rows' rows'' : Jobs}
      → Step settings_hash rows rows'
      → Reach settings_hash rows' rows''
      → Reach settings_hash rows rows''

module _ (settings_hash : ParserOptions → String) where
  Step-Change :
      (rows rows' : Jobs)
      → IsValidQueue settings_hash rows
      → Step settings_hash rows rows'
      → Change settings_hash rows rows'
  Step-Change rows rows' v (Step.scheduled kind identity payload depends_on most at job e) =
      schedule-Change settings_hash kind identity payload depends_on most at job rows rows' e
  Step-Change rows rows' v (Step.recovered now keys n e) =
      recover-Change settings_hash now keys n rows rows' _ refl e
  Step-Change rows rows' v (Step.retried key now b e) =
      retry-Change settings_hash key now b rows rows' e
  Step-Change rows rows' v (Step.claimed now lease token selected handed e) =
      claim-Change settings_hash now lease token selected handed rows rows' v e
  Step-Change rows rows' v (Step.finished key token o now e) =
      finish-Change settings_hash key token o now rows rows' e

-- However the calls of `schedule`, `recover_interrupted`, `retry_failed`, `_claim` and `_finish`
-- follow on one another, those that return keep a valid table valid: keys stay unique, a job has a
-- lease and a worker exactly while it runs, a result exactly when it has succeeded, and never more
-- attempts than it is allowed.
pub Reach-IsValidQueue :
    (settings_hash : ParserOptions → String) {rows rows' : Jobs}
    → Reach settings_hash rows rows'
    → IsValidQueue settings_hash rows
    → IsValidQueue settings_hash rows'
Reach-IsValidQueue settings_hash Reach.here v = v
Reach-IsValidQueue settings_hash (Reach.next {rows = rows} {rows' = rows'} s r) v =
    Reach-IsValidQueue settings_hash r
      (Change-IsValidQueue settings_hash rows rows' (Step-Change settings_hash rows rows' v s) v)

-- A job of a valid table that has succeeded keeps its row, its result included, whatever calls that
-- return follow.
pub Reach-succeeded :
    (settings_hash : ParserOptions → String) (key : ℕ) (row : JobRow) {rows rows' : Jobs}
    → Reach settings_hash rows rows'
    → IsValidQueue settings_hash rows
    → find_key key rows ≡ some row
    → is_succeeded row.status ≡ true
    → find_key key rows' ≡ some row
Reach-succeeded settings_hash key row Reach.here v e s = e
Reach-succeeded settings_hash key row (Reach.next {rows = rows} {rows' = rows'} t r) v e s =
    let c = Step-Change settings_hash rows rows' v t in
    Reach-succeeded settings_hash key row r (Change-IsValidQueue settings_hash rows rows' c v)
      (Change-succeeded settings_hash rows rows' key row c e s) s

-- After a call of `schedule` that returned, the same call returns the same job and leaves the table
-- as it is.
pub schedule_idem :
    (settings_hash : ParserOptions → String) (kind : LocalJobKind) (identity : String)
    (payload : JsonFields) (depends_on : Option ℕ) (max_attempts : ℕ) (at : DateTime)
    (job : LocalJobRecord) (rows rows' : Jobs)
    → schedule settings_hash kind identity payload depends_on max_attempts at rows ≡ ok (job, rows')
    → schedule settings_hash kind identity payload depends_on max_attempts at rows'
      ≡ ok (job, rows')
unfolding schedule write_job insert_job to_storage_time
schedule_idem settings_hash kind identity payload depends_on most at job rows rows' e = ground arith
