-- ===== src/Sync/Observability/Recorded.antt =====
-- src/ntulearn_skill/sync/observability.py: what a run wrote is what `finish` returns.
use ntulearn_skill.Prelude.{
  ◌==◌, is_some, Option-cases, All, append_nil, append_assoc, Result, ok, ◌>>=◌, ℕ, ◌≤◌, String,
  ◌≡◌, refl, sym, ap, ◌∙◌, inl, inr, true, false, Option, none, some, List, [], ◌∷◌, ◌++◌, arith,
  eq_iff,
}
use ntulearn_skill.Core.Identifiers.{CourseId, same_id_iff}
use ntulearn_skill.Sync.Models.{ScopeResult}
use ntulearn_skill.Sync.Observability.{
  SyncRunRow, ScopeRow, Book, upsert_provider, find_course_key, course_key_for, next_key, has_run,
  scope_row, record_scope,
}
use ntulearn_skill.Sync.Observability.Finish.{find_course, read_course, scope_from_row, scopes_of}
use ntulearn_skill.Sync.Lifecycle.{Course}
use mathlib.Core.Path.{subst}

-- `record_scope` for one scope after the other.
abbrev pub record_all : String → ℕ → List ScopeResult → Book → Result Book
unfolding record_scope
record_all provider key [] book = ok book
record_all provider key (scope ∷ scopes) book = do
  after ← record_scope provider key scope book
  record_all provider key scopes after

-- The keys of the courses tell them apart, and the scopes belong to runs.
abbrev pub Distinct : List Course → Type 0
unfolding find_course
Distinct courses = All (λ c. find_course c.key courses ≡ some c.id) courses

abbrev pub WellFormed : Book → Type 0
WellFormed book =
    Distinct book.courses × All (λ row. has_run row.run_key book.runs ≡ true) book.scopes

-- The scope is of the provider and of no course, or of one of its observed courses.
abbrev pub IsRecordable : String → List Course → ScopeResult → Type 0
unfolding find_course_key
IsRecordable provider courses scope = (scope.provider ≡ provider) × elim scope.course_id [
  | none ↦ Unit
  | some id ↦ (id.provider ≡ provider) × (is_some (find_course_key id courses) ≡ true)
]

find_course_key-find_course :
    (courses cs : List Course) (id : CourseId) (k : ℕ)
    → All (λ c. find_course c.key courses ≡ some c.id) cs
    → find_course_key id cs ≡ some k
    → find_course k courses ≡ some id
unfolding find_course_key
find_course_key-find_course courses [] id k d e = cc
find_course_key-find_course courses (c ∷ cs) id k (h, d) e =
    ground (arith, same_id_iff id c.id, find_course_key-find_course courses cs id k d)

pub has_run-above : (n : ℕ) (runs : List SyncRunRow) → next_key runs ≤ n → has_run n runs ≡ false
unfolding next_key
has_run-above n [] h = refl
has_run-above n (r ∷ runs) h = ground (arith, has_run-above n runs)

pub next_key-positive : (runs : List SyncRunRow) → 1 ≤ next_key runs
unfolding next_key
next_key-positive [] = omega arith
next_key-positive (r ∷ runs) = ground (arith, next_key-positive runs)

-- Scopes of other runs are left out.
scopes_of-append :
    (key : ℕ) (cs : List Course) (rows more : List ScopeRow)
    → scopes_of key cs (rows ++ more) ≡ scopes_of key cs rows ++ scopes_of key cs more
unfolding scopes_of
scopes_of-append key cs [] more = refl
scopes_of-append key cs (row ∷ rows) more = ground (arith, scopes_of-append key cs rows more)

-- A course that was found is read back through its row.
course_key_for-read_course :
    (provider : String) (course : Option CourseId) (courses : List Course) (scope : ScopeResult)
    → Distinct courses
    → scope.course_id ≡ course
    → IsRecordable provider courses (record scope { course_id = course })
    → (k : Option ℕ) × (course_key_for provider course courses ≡ ok k)
      × (read_course scope.provider k courses ≡ course)
unfolding course_key_for read_course
course_key_for-read_course provider none courses scope d c h = (none, refl, refl)
course_key_for-read_course provider (some id) courses scope d c (p, (q, s)) =
    elim (Option-cases (find_course_key id courses)) [
      | inl e ↦ cc
      | inr (k, e) ↦
          let f = find_course_key-find_course courses courses id k d e in
          (
            some k,
            rw e ground (arith, eq_iff id.provider provider),
            rw (f, read_course)
                (ap (λ v. some (record { provider = v; value = id.value })) (p ∙ sym q)),
          )
    ]

scopes_of-row :
    (key : ℕ) (k : Option ℕ) (courses : List Course) (scope : ScopeResult)
    → read_course scope.provider k courses ≡ scope.course_id
    → scopes_of key courses (scope_row key k scope ∷ []) ≡ scope ∷ []
unfolding scopes_of scope_from_row
scopes_of-row key k courses scope f = rw f ground (arith)

-- What `record_scope` writes is read back.
record_scope-scopes_of :
    (provider : String) (key : ℕ) (scope : ScopeResult) (book : Book)
    → (key == 0) ≡ false
    → has_run key book.runs ≡ true
    → Distinct book.courses
    → IsRecordable provider book.courses scope
    → (after : Book) × (record_scope provider key scope book ≡ ok after)
      × (after.courses ≡ book.courses)
      × (after.runs ≡ book.runs)
      × (scopes_of key book.courses after.scopes
          ≡ scopes_of key book.courses book.scopes ++ scope ∷ [])
unfolding record_scope scope_from_row
record_scope-scopes_of provider key scope book z r d h =
    let (k, e, f) =
      course_key_for-read_course provider scope.course_id book.courses scope d refl h in
    (
      record book {
        providers = upsert_provider provider scope.observed_at book.providers;
        scopes = book.scopes ++ scope_row key k scope ∷ [];
      },
      rw e ground (arith, e, eq_iff scope.provider provider, h.0),
      refl,
      refl,
      scopes_of-append key book.courses book.scopes (scope_row key k scope ∷ [])
          ∙ ap (λ l. scopes_of key book.courses book.scopes ++ l)
              (scopes_of-row key k book.courses scope f),
    )

pub record_all-scopes_of :
    (provider : String) (key : ℕ) (scopes : List ScopeResult) (book : Book)
    → (key == 0) ≡ false
    → has_run key book.runs ≡ true
    → Distinct book.courses
    → All (IsRecordable provider book.courses) scopes
    → (after : Book) × (record_all provider key scopes book ≡ ok after)
      × (after.courses ≡ book.courses)
      × (after.runs ≡ book.runs)
      × (scopes_of key book.courses after.scopes ≡ scopes_of key book.courses book.scopes ++ scopes)
unfolding record_all
record_all-scopes_of provider key [] book z r d h =
    (book, refl, refl, refl, sym (append_nil (scopes_of key book.courses book.scopes)))
record_all-scopes_of provider key (scope ∷ scopes) book z r d (h, hs) =
    let (one, e, c, f, s) = record_scope-scopes_of provider key scope book z r d h in
    let (after, e', c', f', s') =
      record_all-scopes_of provider key scopes one z (subst (λ l. has_run key l ≡ true) (sym f) r)
        (subst Distinct (sym c) d) (subst (λ l. All (IsRecordable provider l) scopes) (sym c) hs) in
    (
      after,
      rw e e',
      c' ∙ c,
      f' ∙ f,
      subst (λ l. scopes_of key l after.scopes ≡ scopes_of key l one.scopes ++ scopes) c s'
          ∙ ap (λ l. l ++ scopes) s
          ∙ append_assoc (scopes_of key book.courses book.scopes) (scope ∷ []) scopes,
    )
