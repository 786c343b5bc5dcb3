-- ===== src/Sync/Jobs/Leases.antt =====
-- Who may finish a job (src/ntulearn_skill/sync/jobs.py): the worker whose token the row holds.
use ntulearn_skill.Prelude.{
  ◌==◌, if◌then◌else◌, Bool-cases, Option-cases, local_job_error, err, ok, ℕ, ◌+◌, String, ◌≡◌,
  refl, sym, ap, ◌∙◌, ◌≢◌, ◌⊎◌, inl, inr, true, Option, none, some, List, [], ◌∷◌, arith, eq_iff,
}
use ntulearn_skill.Core.Models.{Instant, Duration}
use ntulearn_skill.Parsers.Models.{ParserOptions}
use ntulearn_skill.Sync.Jobs.{LocalJobStatus, is_pending, JobRow, LocalJobRecord, Jobs}
use ntulearn_skill.Sync.Jobs.Queue.{find_key}
use ntulearn_skill.Sync.Jobs.Update.{
  update_where, is_interrupted, recover_row, claim_row, claim, held_by, Outcome, finish_row,
  category_allowed, finish,
}
use ntulearn_skill.Sync.Jobs.Validity.{
  IsAbove, IsValidQueue, finish_row-IsValidJob, update_where-IsAbove, update_where-IsValidQueue,
}
use ntulearn_skill.Sync.Jobs.Rows.{apply_if, find_key-update_where, counted, count-key}
use ntulearn_skill.Sync.Jobs.Claims.{
  held_by-only, claim_row-key, finish_row-key, claimable_pending, claim-inv, find-after_claim,
}
use mathlib.Core.Path.{subst}

-- The table after a job was finished.
abbrev pub after_finish : ℕ → String → Outcome → Instant → Jobs → Jobs
after_finish key token o now rows = update_where (held_by key token) (finish_row now o) rows

-- Where a row is held, it is the row of the key.
pub finish_held :
    (settings_hash : ParserOptions → String) (key : ℕ) (token : String) (o : Outcome)
    (now : Instant) (rows : Jobs)
    → IsValidQueue settings_hash rows
    → category_allowed o ≡ true
    → finish key token o now rows ≡ (
        if counted (held_by key token) (find_key key rows) == 1
        then ok (after_finish key token o now rows)
        else err (local_job_error "local job lease was lost"))
unfolding finish
finish_held settings_hash key token o now rows v c =
    ground (arith, count-key (held_by key token) key 0 rows (held_by-only key token) v.0)

-- The job runs, and its row holds the token.
abbrev pub Holds : ℕ → String → Jobs → JobRow → Type 0
Holds key token rows row =
    (find_key key rows ≡ some row)
    × (row.status ≡ LocalJobStatus.running)
    × (row.worker_token ≡ some token)

-- What the outcome leaves in the row of the job.
abbrev pub HasEnded : Outcome → JobRow → Type 0
HasEnded (Outcome.success result) r =
    (r.status ≡ LocalJobStatus.succeeded) × (r.result ≡ some result) × (r.worker_token ≡ none)
HasEnded (Outcome.failure category) r =
    (r.status ≡ LocalJobStatus.failed)
    × (r.last_error_category ≡ some category)
    × (r.worker_token ≡ none)

finish_row-attempts :
    (now : Instant) (o : Outcome) (r : JobRow)
    → (finish_row now o r).attempt_count ≡ r.attempt_count
unfolding finish_row
finish_row-attempts now (Outcome.success result) r = refl
finish_row-attempts now (Outcome.failure category) r = refl

finish_row-HasEnded : (now : Instant) (o : Outcome) (r : JobRow) → HasEnded o (finish_row now o r)
unfolding finish_row
finish_row-HasEnded now (Outcome.success result) r = (refl, refl, refl)
finish_row-HasEnded now (Outcome.failure category) r = (refl, refl, refl)

find_key-key : (key : ℕ) (rows : Jobs) (row : JobRow) → find_key key rows ≡ some row → row.key ≡ key
unfolding find_key
find_key-key key [] row e = absurd (ground arith)
find_key-key key (r ∷ rows) row e = elim (Bool-cases (r.key == key)) [
  | inl same ↦ ground arith
  | inr other ↦ find_key-key key rows row (ground arith)
]

held-Holds :
    (key : ℕ) (token : String) (row : JobRow)
    → held_by key token row ≡ true
    → (row.status ≡ LocalJobStatus.running) × (row.worker_token ≡ some token)
held-Holds key token row h = elim (Option-cases row.worker_token) [
  | inl e ↦ absurd (ground arith)
  | inr (t, e) ↦
      let same : t ≡ token = (eq_iff t token).0 (ground (arith, e)) in
      (ground arith, e ∙ ap some same)
]

Holds-held :
    (key : ℕ) (token : String) (row : JobRow)
    → row.key ≡ key
    → row.status ≡ LocalJobStatus.running
    → row.worker_token ≡ some token
    → held_by key token row ≡ true
Holds-held key token row k s t = ground (arith, (eq_iff token token).1 refl)

other_kept :
    (key other : ℕ) (token : String) (o : Outcome) (now : Instant) (rows : Jobs)
    → other ≢ key
    → find_key other (after_finish key token o now rows) ≡ find_key other rows
other_kept key other token o now rows n =
    find_key-update_where (held_by key token) (finish_row now o) (finish_row-key now o) other rows
    ∙ unheld (find_key other rows) refl
  where
    unheld :
        (found : Option JobRow)
        → find_key other rows ≡ found
        → apply_if (held_by key token) (finish_row now o) found ≡ found
    unheld none e = refl
    unheld (some r) e = ground (arith, find_key-key other rows r e, n)

-- In a valid table, with an error category that the table allows, a job is finished exactly if it is
-- in the table, its status is RUNNING and its row holds the very token of the caller. Then the row
-- holds the outcome (SUCCEEDED with the result, FAILED with the category), no token and the attempts
-- that it had, and the row of every other key is what it was. In all other cases the lease counts as lost.
pub finish_lem :
    (settings_hash : ParserOptions → String) (key : ℕ) (token : String) (o : Outcome)
    (now : Instant) (rows : Jobs)
    → IsValidQueue settings_hash rows
    → category_allowed o ≡ true
    → ((row : JobRow) × (row' : JobRow) × (rows' : Jobs) × Holds key token rows row
        × (finish key token o now rows ≡ ok rows')
        × (find_key key rows' ≡ some row')
        × HasEnded o row'
        × (row'.attempt_count ≡ row.attempt_count)
        × ((other : ℕ) → other ≢ key → find_key other rows' ≡ find_key other rows))
      ⊎ (((row : JobRow) → ¬ Holds key token rows row)
          × (finish key token o now rows ≡ err (local_job_error "local job lease was lost")))
finish_lem settings_hash key token o now rows v c =
    let finishes = finish_held settings_hash key token o now rows v c in
    elim (Option-cases (find_key key rows)) [
      | inl missing ↦
          inr ((λ row (found, s, t). absurd (ground arith)), ground (arith, missing, finishes))
      | inr (row, found) ↦ elim (Bool-cases (held_by key token row)) [
        | inl held ↦
            let (running, same) = held-Holds key token row held in
            inl (
              row,
              finish_row now o row,
              after_finish key token o now rows,
              (found, running, same),
              ground (arith, found, held, finishes),
              find_key-update_where (held_by key token) (finish_row now o) (finish_row-key now o)
                    key rows
                  ∙ ap (apply_if (held_by key token) (finish_row now o)) found
                  ∙ rw held refl,
              finish_row-HasEnded now o row,
              finish_row-attempts now o row,
              λ other n. other_kept key other token o now rows n,
            )
        | inr free ↦ inr (
          (λ r (e, s, t).
              let q : row ≡ r = ground (arith, found) in
              let h =
                Holds-held key token row (find_key-key key rows row found)
                  (subst (λ (x : JobRow). x.status ≡ LocalJobStatus.running) (sym q) s)
                  (subst (λ (x : JobRow). x.worker_token ≡ some token) (sym q) t) in
              absurd (ground (arith, h, free))),
          ground (arith, found, free, finishes),
        )
      ]
    ]

pub after_finish-IsValidQueue :
    (settings_hash : ParserOptions → String) (key : ℕ) (token : String) (o : Outcome)
    (now : Instant) (rows : Jobs)
    → IsValidQueue settings_hash rows
    → IsValidQueue settings_hash (after_finish key token o now rows)
after_finish-IsValidQueue settings_hash key token o now rows v =
    update_where-IsValidQueue settings_hash (held_by key token) (finish_row now o)
      (finish_row-key now o) (λ r _ w. finish_row-IsValidJob settings_hash now o r w) rows v

pub recover_row-key : (now : Instant) (r : JobRow) → (recover_row now r).key ≡ r.key
unfolding recover_row
recover_row-key now r = refl

-- On the table that the recovery of interrupted jobs leaves, when it was valid before, a job that was
-- recovered cannot be finished with any token, at any time: its outcome, where its category is one
-- that the table allows, is refused. (Before it can be finished it must be claimed again.)
pub recovered-finish :
    (settings_hash : ParserOptions → String) (key : ℕ) (token : String) (o : Outcome)
    (now later : Instant) (selected : Option (List ℕ)) (rows : Jobs) (row : JobRow)
    → IsValidQueue settings_hash rows
    → find_key key rows ≡ some row
    → is_interrupted now selected row ≡ true
    → category_allowed o ≡ true
    → finish key token o later (update_where (is_interrupted now selected) (recover_row now) rows)
      ≡ err (local_job_error "local job lease was lost")
unfolding finish
recovered-finish settings_hash key token o now later selected rows row v found p c =
    let rows' = update_where (is_interrupted now selected) (recover_row now) rows in
    let above : IsAbove 0 rows' =
      update_where-IsAbove (is_interrupted now selected) (recover_row now) (recover_row-key now) 0
        rows v.0 in
    unfold recover_row in
    ground (
      arith,
      count-key (held_by key token) key 0 rows' (held_by-only key token) above,
      find_key-update_where (is_interrupted now selected) (recover_row now) (recover_row-key now)
          key rows,
      found,
      p,
    )

claimed_twice :
    (now : Instant) (lease : Duration) (token : String) (row row' : JobRow) (rows' : Jobs)
    → find_key row.key rows' ≡ some (claim_row now (now + lease) token row)
    → find_key row.key rows' ≡ some row'
    → is_pending row'.status ≡ true
    → ⊥
unfolding claim_row
claimed_twice now lease token row row' rows' e e' p = ground arith

-- Two claims that follow one another on a valid table, and that both hand out a job, hand out
-- different ones, whatever their times, leases, tokens and selections.
pub claim-claim :
    (settings_hash : ParserOptions → String) (now now' : Instant) (lease lease' : Duration)
    (token token' : String) (selected selected' : Option (List ℕ)) (rows rows' rows'' : Jobs)
    (job job' : LocalJobRecord) (t t' : String)
    → IsValidQueue settings_hash rows
    → claim settings_hash now lease token selected rows ≡ ok (some (job, t), rows')
    → claim settings_hash now' lease' token' selected' rows' ≡ ok (some (job', t'), rows'')
    → job'.key ≢ job.key
claim-claim settings_hash now now' lease lease' token token' selected selected' rows rows' rows''
      job job' t t' v e e' same =
    let ((row, found, p, je, te, re), v') =
      claim-inv settings_hash now lease token selected rows v (some (job, t), rows') e in
    let ((row', found', p', je', te', re'), _) =
      claim-inv settings_hash now' lease' token' selected' rows' v' (some (job', t'), rows'') e' in
    let k : job.key ≡ row.key =
      ap (λ (j : LocalJobRecord). j.key) je ∙ claim_row-key now (now + lease) token row in
    let at_key : find_key row.key rows ≡ some row =
      subst (λ n. find_key n rows ≡ some row) k found in
    claimed_twice now lease token row row' rows'
      (subst (λ (l : Jobs). find_key row.key l ≡ some (claim_row now (now + lease) token row))
        (sym re) (find-after_claim settings_hash now lease token selected rows v row at_key p))
      (subst (λ n. find_key n rows' ≡ some row') (same ∙ k) found')
      (claimable_pending settings_hash now' lease' token' selected' rows' v' row' p')
