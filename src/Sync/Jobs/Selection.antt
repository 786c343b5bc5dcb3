-- ===== src/Sync/Jobs/Selection.antt =====
-- The selection of jobs by key (`_job_keys` of src/ntulearn_skill/sync/jobs.py), which the runner
-- normalizes before it hands it to methods that normalize it again, and the counts of a selection.
use ntulearn_skill.Prelude.{
  ltb, ◌==◌, Bool-cases, any, count_if, ok, ℕ, ◌+◌, ◌≤◌, ◌<◌, ◌≡◌, refl, inl, inr, Bool, true,
  false, ◌&&◌, ◌||◌, Option, none, some, List, [], ◌∷◌, arith,
}
use ntulearn_skill.Core.Models.{Instant}
use ntulearn_skill.Sync.Jobs.{is_pending, is_running, JobRow, Jobs}
use ntulearn_skill.Sync.Jobs.Queue.{insert_key, sort_keys, job_keys, is_selected}
use ntulearn_skill.Sync.Jobs.Update.{
  is_interrupted, dependency_done, is_remaining, is_blocked, counts,
}
use mathlib.Core.Path.{subst}

-- Keys ascend from above a bound.
abbrev pub IsUp : ℕ → List ℕ → Type 0
IsUp lower [] = Unit
IsUp lower (k ∷ ks) = (lower < k) × IsUp k ks

insert_key-IsUp :
    (lower k : ℕ) (ks : List ℕ) → lower < k → IsUp lower ks → IsUp lower (insert_key k ks)
unfolding insert_key
insert_key-IsUp lower k [] lt h = (lt, tt)
insert_key-IsUp lower k (j ∷ js) lt (lj, h) = ground (arith, insert_key-IsUp j k js)

sort_keys-IsUp : (ks : List ℕ) → any (λ k. k == 0) ks ≡ false → IsUp 0 (sort_keys ks)
unfolding sort_keys
sort_keys-IsUp [] n = tt
sort_keys-IsUp (k ∷ ks) n =
    insert_key-IsUp 0 k (sort_keys ks) (ground arith) (sort_keys-IsUp ks (ground arith))

insert_key-up : (k : ℕ) (ks : List ℕ) → IsUp k ks → insert_key k ks ≡ k ∷ ks
unfolding insert_key
insert_key-up k [] h = refl
insert_key-up k (j ∷ js) (lt, h) = ground arith

sort_keys-up : (lower : ℕ) (ks : List ℕ) → IsUp lower ks → sort_keys ks ≡ ks
unfolding sort_keys
sort_keys-up lower [] h = refl
sort_keys-up lower (k ∷ ks) (lt, h) = rw (sort_keys-up k ks h) (insert_key-up k ks h)

up-positive : (lower : ℕ) (ks : List ℕ) → IsUp lower ks → any (λ k. k == 0) ks ≡ false
up-positive lower [] h = refl
up-positive lower (k ∷ ks) (lt, h) = ground (arith, up-positive k ks h)

-- A normalized selection is left alone when it is normalized again.
pub job_keys_idem :
    (keys selected : Option (List ℕ))
    → job_keys keys ≡ ok selected
    → job_keys selected ≡ ok selected
unfolding job_keys
job_keys_idem none none e = refl
job_keys_idem none (some s) e = cc
job_keys_idem (some ks) none e = ground arith
job_keys_idem (some ks) (some s) e = elim (Bool-cases (any (λ k. k == 0) ks)) [
  | inl z ↦ absurd (ground arith)
  | inr n ↦
      let q : sort_keys ks ≡ s = ground arith in
      let up : IsUp 0 s = subst (IsUp 0) q (sort_keys-IsUp ks n) in
      ground (arith, up-positive 0 s up, sort_keys-up 0 s up)
]

pub count-zero {ℓ} :
    {A : Type ℓ} (p : A → Bool) (xs : List A) → ((x : A) → p x ≡ false) → count_if p xs ≡ 0
count-zero p [] f = refl
count-zero p (x ∷ xs) f = rw (f x) (omega (arith, count-zero p xs f))

not_remaining : (r : JobRow) → is_remaining (some []) r ≡ false
unfolding is_remaining
not_remaining r = ground arith

not_blocked : (rows : Jobs) (r : JobRow) → is_blocked (some []) rows r ≡ false
unfolding is_blocked
not_blocked rows r = ground arith

pub not_interrupted : (now : Instant) (r : JobRow) → is_interrupted now (some []) r ≡ false
unfolding is_interrupted
not_interrupted now r = ground arith

-- The counts of a normalized selection.
pub counts-ok :
    (selected : Option (List ℕ)) (rows : Jobs)
    → job_keys selected ≡ ok selected
    → counts selected rows
      ≡ ok (count_if (is_remaining selected) rows, count_if (is_blocked selected rows) rows)
unfolding counts
counts-ok none rows e = ground arith
counts-ok (some []) rows e = ground (
  arith,
  e,
  count-zero (is_remaining (some [])) rows not_remaining,
  count-zero (is_blocked (some []) rows) rows (not_blocked rows),
)
counts-ok (some (k ∷ ks)) rows e = ground (arith, e)

-- A job that is blocked remains.
count-le {ℓ} :
    {A : Type ℓ} (p q : A → Bool) (xs : List A)
    → ((x : A) → p x ≡ true → q x ≡ true)
    → count_if p xs ≤ count_if q xs
count-le p q [] f = omega arith
count-le p q (x ∷ xs) f = elim (Bool-cases (p x)) [
  | inl e ↦ rw (e, f x e) (omega (arith, count-le p q xs f))
  | inr n ↦ rw n (omega (arith, count-le p q xs f))
]

-- A row that neither is blocked nor has succeeded: it runs, or it waits for its time alone.
unfoldable pub is_active : Option (List ℕ) → Jobs → JobRow → Bool
is_active selected rows row =
    (is_running row.status
      || (is_pending row.status
          && ltb row.attempt_count row.max_attempts
          && dependency_done row.depends_on rows))
    && is_selected selected row.key

-- In any rows of a table, what remains of a selection splits in two: it is blocked, or it is active,
-- which is to say that it runs or waits for nothing but its time.
pub counts_split :
    (selected : Option (List ℕ)) (table rows : Jobs)
    → count_if (is_remaining selected) rows
      ≡ count_if (is_blocked selected table) rows + count_if (is_active selected table) rows
unfolding is_remaining is_blocked is_active
counts_split selected table [] = refl
counts_split selected table (r ∷ rows) = ground (arith, counts_split selected table rows)
