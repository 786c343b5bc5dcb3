-- ===== src/Sync/Jobs/Rows.antt =====
-- Rows by key in the table `local_job` (src/ntulearn_skill/sync/jobs.py), when keys ascend.
use mathlib.Core.Path.{subst}
use ntulearn_skill.Prelude.{
  ◌==◌, if◌then◌else◌, Bool-cases, All, All-imp, All-both, ℕ, ◌≤◌, ◌<◌, String, ◌≡◌, refl, inl, inr,
  Bool, true, Option, none, some, [], ◌∷◌, arith,
}
use ntulearn_skill.Parsers.Models.{ParserOptions}
use ntulearn_skill.Sync.Jobs.{JobRow, Jobs}
use ntulearn_skill.Sync.Jobs.Queue.{find_key}
use ntulearn_skill.Sync.Jobs.Update.{update_where, row_count, first_where}
use ntulearn_skill.Sync.Jobs.Validity.{
  IsValidJob, IsAbove, IsValidQueue, if_pred, update_where-IsAbove,
}

abbrev pub apply_if : (JobRow → Bool) → (JobRow → JobRow) → Option JobRow → Option JobRow
apply_if test change none = none
apply_if test change (some r) = some (if test r then change r else r)

same_key_if :
    (test : JobRow → Bool) (change : JobRow → JobRow) (r : JobRow)
    → (change r).key ≡ r.key
    → (if test r then change r else r).key ≡ r.key
same_key_if test change r e = elim (Bool-cases (test r)) [ inl p ↦ rw p e | inr n ↦ rw n ]

-- A row is found after an update exactly as it was before, changed if it passes the test.
pub find_key-update_where :
    (test : JobRow → Bool) (change : JobRow → JobRow)
    → ((r : JobRow) → (change r).key ≡ r.key)
    → (key : ℕ) (rows : Jobs)
    → find_key key (update_where test change rows) ≡ apply_if test change (find_key key rows)
unfolding find_key update_where
find_key-update_where test change same key [] = refl
find_key-update_where test change same key (r ∷ rows) =
    rw (same_key_if test change r (same r)) (elim (Bool-cases (r.key == key)) [
      | inl e ↦ rw e
      | inr n ↦ rw n (find_key-update_where test change same key rows)
    ])

find_key-none :
    (key lower : ℕ) (rows : Jobs) → IsAbove lower rows → key ≤ lower → find_key key rows ≡ none
unfolding find_key
find_key-none key lower [] h le = refl
find_key-none key lower (r ∷ rows) (lt, h) le =
    ground (arith, find_key-none key r.key rows h (omega arith))

count-none :
    (test : JobRow → Bool) (key lower : ℕ) (rows : Jobs)
    → ((r : JobRow) → test r ≡ true → r.key ≡ key)
    → IsAbove lower rows
    → key ≤ lower
    → row_count test rows ≡ 0
count-none test key lower [] only h le = refl
count-none test key lower (r ∷ rows) only (lt, h) le = elim (Bool-cases (test r)) [
  | inl p ↦ absurd (omega (arith, only r p))
  | inr n ↦ rw n (omega (arith, count-none test key r.key rows only h (omega arith)))
]

abbrev pub counted : (JobRow → Bool) → Option JobRow → ℕ
counted test none = 0
counted test (some r) = if test r then 1 else 0

-- A condition that fixes the key counts one row at most: the one of that key.
pub count-key :
    (test : JobRow → Bool) (key lower : ℕ) (rows : Jobs)
    → ((r : JobRow) → test r ≡ true → r.key ≡ key)
    → IsAbove lower rows
    → row_count test rows ≡ counted test (find_key key rows)
unfolding find_key
count-key test key lower [] only h = refl
count-key test key lower (r ∷ rows) only (lt, h) = elim (Bool-cases (test r)) [
  | inl p ↦
      let e : r.key ≡ key = only r p in ground (arith, e, p, count-none test key r.key rows only h)
  | inr n ↦ elim (Bool-cases (r.key == key)) [
    | inl e ↦
        let e' : r.key ≡ key = ground arith in
        ground (arith, e', n, count-none test key r.key rows only h)
    | inr d ↦ rw (n, d) (omega (arith, count-key test key r.key rows only h))
  ]
]

-- What `first_where` returns passes the test and is the row of its key.
pub first_where-some :
    (test : JobRow → Bool) (lower : ℕ) (rows : Jobs) {r : JobRow}
    → IsAbove lower rows
    → first_where test rows ≡ some r
    → (test r ≡ true) × (lower < r.key) × (find_key r.key rows ≡ some r)
unfolding first_where find_key
first_where-some test lower [] h e = absurd (ground arith)
first_where-some test lower (s ∷ rows) {r = r} (lt, h) e = elim (Bool-cases (test s)) [
  | inl p ↦ let q : s ≡ r = ground arith in (ground arith, ground arith, ground arith)
  | inr n ↦
      let (p, above, found) = first_where-some test s.key rows {r = r} h (ground arith) in
      (p, omega arith, ground arith)
]

-- Where `first_where` finds nothing no row passes the test.
pub first_where-none :
    (test : JobRow → Bool) (rows : Jobs) → first_where test rows ≡ none → row_count test rows ≡ 0
unfolding first_where
first_where-none test [] e = refl
first_where-none test (r ∷ rows) e = ground (arith, first_where-none test rows)

-- The row of a valid table.
pub find_key-All {κ} :
    (P : JobRow → Type κ) (key : ℕ) (rows : Jobs)
    → All P rows
    → (r : JobRow) → find_key key rows ≡ some r
    → P r
unfolding find_key
find_key-All P key [] h r e = absurd (ground arith)
find_key-All P key (s ∷ rows) (p, h) r e = elim (Bool-cases (s.key == key)) [
  | inl same ↦ let q : s ≡ r = ground arith in subst P q p
  | inr other ↦ find_key-All P key rows h r (ground arith)
]

-- Every row of the table is the one found under its key.
pub found-All :
    (lower : ℕ) (rows : Jobs)
    → IsAbove lower rows
    → All (λ (r : JobRow). (lower < r.key) × (find_key r.key rows ≡ some r)) rows
unfolding find_key
found-All lower [] h = tt
found-All lower (s ∷ rows) (lt, h) = (
  (lt, ground arith),
  All-imp (λ (r : JobRow). (s.key < r.key) × (find_key r.key rows ≡ some r))
      (λ (r : JobRow). (lower < r.key) × (find_key r.key (s ∷ rows) ≡ some r)) rows
      (λ r (above, found). (omega arith, ground arith)) (found-All s.key rows h),
)

update-All :
    (settings_hash : ParserOptions → String) (found : JobRow → Type 0) (test : JobRow → Bool)
    (change : JobRow → JobRow)
    → ((r : JobRow)
        → test r ≡ true
        → found r
        → IsValidJob settings_hash r
        → IsValidJob settings_hash (change r))
    → (rows : Jobs) → All (λ r. IsValidJob settings_hash r × found r) rows
    → All (IsValidJob settings_hash) (update_where test change rows)
unfolding update_where
update-All settings_hash found test change keep [] h = tt
update-All settings_hash found test change keep (r ∷ rows) ((v, f), h) = (
  if_pred (IsValidJob settings_hash) (test r) (λ t. keep r t f v) v,
  update-All settings_hash found test change keep rows h,
)

-- As `update_where-IsValidQueue`, where a changed row is known to be the one of its key.
pub update_found-IsValidQueue :
    (settings_hash : ParserOptions → String) (test : JobRow → Bool) (change : JobRow → JobRow)
    (rows : Jobs)
    → ((r : JobRow) → (change r).key ≡ r.key)
    → ((r : JobRow)
        → test r ≡ true
        → find_key r.key rows ≡ some r
        → IsValidJob settings_hash r
        → IsValidJob settings_hash (change r))
    → IsValidQueue settings_hash rows
    → IsValidQueue settings_hash (update_where test change rows)
update_found-IsValidQueue settings_hash test change rows same keep (a, v) = (
  update_where-IsAbove test change same 0 rows a,
  update-All settings_hash (λ r. find_key r.key rows ≡ some r) test change keep rows
      (All-both (IsValidJob settings_hash) (λ r. find_key r.key rows ≡ some r) rows v
        (All-imp (λ (r : JobRow). (0 < r.key) × (find_key r.key rows ≡ some r))
          (λ (r : JobRow). find_key r.key rows ≡ some r) rows (λ r p. p.1) (found-All 0 rows a))),
)
