-- ===== src/Sync/Jobs/Kept.antt =====
-- What every change of the table `local_job` (src/ntulearn_skill/sync/jobs.py) keeps.
use ntulearn_skill.Prelude.{
  All-append, ◌==◌, Bool-cases, All-append, ok, ℕ, suc, ◌<◌, String, ◌≡◌, refl, inl, inr, true,
  Option, some, [], ◌∷◌, ◌++◌, arith,
}
use ntulearn_skill.Core.Models.{Instant}
use ntulearn_skill.Sync.Jobs.{LocalJobKind, is_succeeded, JobRow, Jobs}
use ntulearn_skill.Sync.Jobs.Payload.{validate_payload}
use ntulearn_skill.Sync.Jobs.Queue.{find_key, largest_key, new_job}
use ntulearn_skill.Sync.Jobs.Validity.{IsValidJob, IsAbove, IsValidQueue}
use ntulearn_skill.Sync.Jobs.Rows.{find_key-update_where, update_found-IsValidQueue}
use ntulearn_skill.Prelude.Json.{JsonFields}
use ntulearn_skill.Parsers.Models.{ParserOptions}
use ntulearn_skill.Sync.Jobs.Changes.{Change}

module _ (settings_hash : ParserOptions → String) where
  IsAbove-append :
      (lower : ℕ) (rows : Jobs) (r : JobRow)
      → IsAbove lower rows
      → lower < r.key
      → largest_key rows < r.key
      → IsAbove lower (rows ++ r ∷ [])
  unfolding largest_key
  IsAbove-append lower [] r h lt l = (lt, tt)
  IsAbove-append lower (s ∷ rows) r (ls, h) lt l =
      (ls, IsAbove-append s.key rows r h (ground arith) (ground arith))

  new_job-IsValidJob :
      (kind : LocalJobKind) (identity : String) (payload : JsonFields) (depends_on : Option ℕ)
      (max_attempts : ℕ) (at : Instant) (key : ℕ)
      → 0 < max_attempts
      → validate_payload settings_hash kind payload ≡ ok tt
      → IsValidJob settings_hash
          (new_job settings_hash kind identity payload depends_on max_attempts at key)
  new_job-IsValidJob kind identity payload depends_on max_attempts at key lt v = record {
    leased = refl;
    held = refl;
    completed = refl;
    resulted = refl;
    bounded = omega arith;
    allowed = lt;
    payload_checked = v;
  }

  pub Change-IsValidQueue :
      (rows rows' : Jobs)
      → Change settings_hash rows rows'
      → IsValidQueue settings_hash rows
      → IsValidQueue settings_hash rows'
  Change-IsValidQueue rows rows' Change.none_made v = v
  Change-IsValidQueue rows rows' (Change.updated test change same unfinished keep) v =
      update_found-IsValidQueue settings_hash test change rows same keep v
  Change-IsValidQueue rows rows'
        (Change.added kind identity payload depends_on max_attempts at lt checked) (a, v) =
      let key = suc (largest_key rows) in
      (
        IsAbove-append 0 rows _ a (omega arith) (omega arith),
        All-append (IsValidJob settings_hash) rows _ v (
          new_job-IsValidJob kind identity payload depends_on max_attempts at key lt checked,
          tt,
        ),
      )

  find_key-append :
      (key : ℕ) (rows : Jobs) (s r : JobRow)
      → find_key key rows ≡ some r
      → find_key key (rows ++ s ∷ []) ≡ some r
  unfolding find_key
  find_key-append key [] s r e = absurd (ground arith)
  find_key-append key (t ∷ rows) s r e = elim (Bool-cases (t.key == key)) [
    | inl same ↦ ground arith
    | inr other ↦ rw other (find_key-append key rows s r (ground arith))
  ]

  pub Change-succeeded :
      (rows rows' : Jobs) (key : ℕ) (r : JobRow)
      → Change settings_hash rows rows'
      → find_key key rows ≡ some r
      → is_succeeded r.status ≡ true
      → find_key key rows' ≡ some r
  Change-succeeded rows rows' key r Change.none_made e s = e
  Change-succeeded rows rows' key r (Change.updated test change same unfinished keep) e s =
      elim (Bool-cases (test r)) [
        | inl t ↦ absurd (ground (arith, unfinished r t))
        | inr n ↦ ground (arith, find_key-update_where test change same key rows, e, n)
      ]
  Change-succeeded rows rows' key r (Change.added kind identity payload depends_on most at lt c) e
        s =
      find_key-append key rows _ r e
