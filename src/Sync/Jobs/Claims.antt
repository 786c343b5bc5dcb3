-- ===== src/Sync/Jobs/Claims.antt =====
-- What `_claim` and `_finish` (src/ntulearn_skill/sync/jobs.py) do to a valid table.
use ntulearn_skill.Prelude.{
  Bool-cases, Option-cases, Result-cases, ◌≤◌, false, ok, ℕ, ◌+◌, ◌<◌, String, ◌≡◌, refl, inl, inr,
  true, false, Option, none, some, List, [], ◌∷◌, arith,
}
use ntulearn_skill.Core.Models.{
  Instant, Duration, max_instant, add_duration, add_duration-ok, add_duration-inv,
}
use ntulearn_skill.Parsers.Models.{ParserOptions}
use ntulearn_skill.Sync.Jobs.{is_pending, JobRow, LocalJobRecord, Jobs}
use ntulearn_skill.Sync.Jobs.Queue.{find_key, from_row}
use ntulearn_skill.Sync.Jobs.Update.{
  update_where, row_count, selects_nothing, is_claimable, first_where, claim_row, pending_key,
  claim_until, claim, held_by, Outcome, finish_row,
}
use ntulearn_skill.Sync.Jobs.Validity.{IsValidJob, IsValidQueue, claim_row-IsValidJob}
use ntulearn_skill.Sync.Jobs.Rows.{
  find_key-update_where, count-key, first_where-some, first_where-none, find_key-All,
  update_found-IsValidQueue,
}
use mathlib.Core.Path.{subst}

-- The record that is handed out for a row whose payload passes its checks.
abbrev pub record_of : JobRow → LocalJobRecord
record_of row = record {
  key = row.key;
  kind = row.kind;
  input_identity = row.input_identity;
  payload = row.payload;
  result = row.result;
  depends_on_job_key = row.depends_on;
  status = row.status;
  attempt_count = row.attempt_count;
  max_attempts = row.max_attempts;
  available_at = row.available_at;
  lease_expires_at = row.lease_expires_at;
  last_error_category = row.last_error_category;
}

pub pending_key-only : (key : ℕ) (r : JobRow) → pending_key key r ≡ true → r.key ≡ key
pending_key-only key r h = ground arith

pub held_by-only :
    (key : ℕ) (token : String) (r : JobRow) → held_by key token r ≡ true → r.key ≡ key
held_by-only key token r h = ground arith

pub claim_row-key :
    (now lease : Instant) (token : String) (r : JobRow) → (claim_row now lease token r).key ≡ r.key
unfolding claim_row
claim_row-key now lease token r = refl

pub finish_row-key : (now : Instant) (o : Outcome) (r : JobRow) → (finish_row now o r).key ≡ r.key
unfolding finish_row
finish_row-key now (Outcome.success result) r = refl
finish_row-key now (Outcome.failure c) r = refl

module _ (settings_hash : ParserOptions → String) (now : Instant) (lease : Duration)
    (token : String) (selected : Option (List ℕ)) (rows : Jobs)
    (valid : IsValidQueue settings_hash rows) where
  abbrev pub after_claim : JobRow → Jobs
  after_claim row = update_where (pending_key row.key) (claim_row now (now + lease) token) rows

  pub claimable_pending :
      (r : JobRow) → is_claimable now selected rows r ≡ true → is_pending r.status ≡ true
  unfolding is_claimable
  claimable_pending r h = ground arith

  claimable_below :
      (r : JobRow) → is_claimable now selected rows r ≡ true → r.attempt_count < r.max_attempts
  unfolding is_claimable
  claimable_below r h = ground arith

  -- The claim of the first claimable row.
  claim-first :
      (row : JobRow)
      → selects_nothing selected ≡ false
      → first_where (is_claimable now selected rows) rows ≡ some row
      → now + lease ≤ max_instant
      → claim settings_hash now lease token selected rows
        ≡ ok (some (record_of (claim_row now (now + lease) token row), token), after_claim row)
  unfolding claim claim_until from_row
  claim-first row s e fits =
      let (p, above, found) = first_where-some (is_claimable now selected rows) 0 rows valid.0 e in
      let pending = claimable_pending row p in
      let v = find_key-All (IsValidJob settings_hash) row.key rows valid.1 row found in
      ground (
        arith,
        add_duration-ok now lease fits,
        pending,
        count-key (pending_key row.key) row.key 0 rows (pending_key-only row.key) valid.0,
        found,
        find_key-update_where (pending_key row.key) (claim_row now (now + lease) token)
            (claim_row-key now (now + lease) token) row.key rows,
        (claim_row-IsValidJob settings_hash now (now + lease) token row pending
            (claimable_below row p) v).payload_checked,
        claim_row-key now (now + lease) token row,
      )

  abbrev pub Claimed : Option (LocalJobRecord × String) × Jobs → Type 0
  Claimed (none, rows') = (row_count (is_claimable now selected rows) rows ≡ 0) × (rows' ≡ rows)
  Claimed (some (job, t), rows') =
      (row : JobRow) × (find_key job.key rows ≡ some row)
      × (is_claimable now selected rows row ≡ true)
      × (job ≡ record_of (claim_row now (now + lease) token row))
      × (t ≡ token)
      × (rows' ≡ after_claim row)

  nothing_claimable :
      (l : Jobs)
      → selects_nothing selected ≡ true
      → row_count (is_claimable now selected rows) l ≡ 0
  unfolding is_claimable
  nothing_claimable [] s = refl
  nothing_claimable (r ∷ l) s = ground (arith, nothing_claimable l s)

  pub claimed-IsValidJob :
      (row : JobRow)
      → find_key row.key rows ≡ some row
      → is_claimable now selected rows row ≡ true
      → (r : JobRow) → pending_key row.key r ≡ true
      → find_key r.key rows ≡ some r
      → IsValidJob settings_hash r
      → IsValidJob settings_hash (claim_row now (now + lease) token r)
  claimed-IsValidJob row found p r t f v =
      let same : r.key ≡ row.key = pending_key-only row.key r t in
      let e : row ≡ r = ground (arith, found, f, same) in
      claim_row-IsValidJob settings_hash now (now + lease) token r (ground arith)
        (subst (λ (x : JobRow). x.attempt_count < x.max_attempts) e (claimable_below row p)) v

  after_claim-IsValidQueue :
      (row : JobRow)
      → find_key row.key rows ≡ some row
      → is_claimable now selected rows row ≡ true
      → IsValidQueue settings_hash (after_claim row)
  after_claim-IsValidQueue row found p =
      update_found-IsValidQueue settings_hash (pending_key row.key)
        (claim_row now (now + lease) token) rows (claim_row-key now (now + lease) token)
        (claimed-IsValidJob row found p) valid

  claim-nothing :
      selects_nothing selected ≡ true
      → claim settings_hash now lease token selected rows ≡ ok (none, rows)
  unfolding claim
  claim-nothing s = rw s

  abbrev Kept : Option (LocalJobRecord × String) × Jobs → Type 0
  Kept x = Claimed x × IsValidQueue settings_hash x.1

  pub claim_lem :
      now + lease ≤ max_instant
      → (x : Option (LocalJobRecord × String) × Jobs) × (claim settings_hash now lease token
            selected rows
          ≡ ok x)
        × Claimed x
        × IsValidQueue settings_hash x.1
  claim_lem fits = elim (Bool-cases (selects_nothing selected)) [
    | inl s ↦ ((none, rows), claim-nothing s, (nothing_claimable rows s, refl), valid)
    | inr s ↦ elim (Option-cases (first_where (is_claimable now selected rows) rows)) [
      | inl e ↦ (
        (none, rows),
        unfold claim claim_until in ground (arith, s, e, add_duration-ok now lease fits),
        (first_where-none (is_claimable now selected rows) rows e, refl),
        valid,
      )
      | inr (row, e) ↦
          let (p, above, found) =
            first_where-some (is_claimable now selected rows) 0 rows valid.0 e in
          (
            (some (record_of (claim_row now (now + lease) token row), token), after_claim row),
            claim-first row s e fits,
            (row, rw (claim_row-key now (now + lease) token row) found, p, refl, refl, refl),
            after_claim-IsValidQueue row found p,
          )
    ]
  ]

  -- A claim that returned had nothing to select from, or a lease whose end exists.
  returned-fits :
      (x : Option (LocalJobRecord × String) × Jobs)
      → claim settings_hash now lease token selected rows ≡ ok x
      → selects_nothing selected ≡ false
      → now + lease ≤ max_instant
  unfolding claim
  returned-fits x e s = elim (Result-cases (add_duration now lease)) [
    | inr (raised, a) ↦ absurd (ground arith)
    | inl (t, a) ↦ add_duration-inv now lease a
  ]

  -- What a claim that returned has done.
  pub claim-inv :
      (x : Option (LocalJobRecord × String) × Jobs)
      → claim settings_hash now lease token selected rows ≡ ok x
      → Claimed x × IsValidQueue settings_hash x.1
  claim-inv x e = elim (Bool-cases (selects_nothing selected)) [
    | inl s ↦
        let q : (none, rows) ≡ x = ground (arith, claim-nothing s) in
        subst Kept q ((nothing_claimable rows s, refl), valid)
    | inr s ↦
        let (y, e', c, v) = claim_lem (returned-fits x e s) in
        let q : y ≡ x = ground arith in subst Kept q (c, v)
  ]

  pub find-after_claim :
      (row : JobRow)
      → find_key row.key rows ≡ some row
      → is_claimable now selected rows row ≡ true
      → find_key row.key (after_claim row) ≡ some (claim_row now (now + lease) token row)
  find-after_claim row found p = ground (
    arith,
    find_key-update_where (pending_key row.key) (claim_row now (now + lease) token)
        (claim_row-key now (now + lease) token) row.key rows,
    found,
    claimable_pending row p,
  )
