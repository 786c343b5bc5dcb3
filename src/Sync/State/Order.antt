-- ===== src/Sync/State/Order.antt =====
-- The order in which attempts of a scope are recorded (src/ntulearn_skill/sync/state.py).
use ntulearn_skill.Prelude.{
  Bool-cases, All, Result, ok, ◌>>=◌, ℕ, ◌+◌, ◌≤◌, ◌≡◌, refl, sym, ap, ◌∙◌, inl, inr, ◌&&◌, Option,
  none, some, List, [], ◌∷◌,
}
use ntulearn_skill.Core.Models.{is_complete, Instant, Duration, DateTime, max_instant}
use ntulearn_skill.Core.Identifiers.{CourseId}
use ntulearn_skill.Sync.State.{is_succeeded, ScopeKey}
use ntulearn_skill.Sync.State.Row.{SyncStateRow, upsert}
use ntulearn_skill.Sync.State.Repository.{
  ProviderRow, Store, course_of, selects, select, seconds_to_age, Attempt, when, attempt_row,
  record_attempt,
}
use ntulearn_skill.Sync.State.Markers.{
  marker, Markers, markers, join, markers-merge, join_comm, join_assoc,
}
use ntulearn_skill.Sync.State.Lookup.{written, select-upsert, restale, select-set_stale}
use ntulearn_skill.Sync.State.Stored.{
  IsStored, IsValidStore, IsRecordable, new_row, new_row-HasKey, new_row-IsStored,
}
use ntulearn_skill.Sync.State.Calendar.{
  IsBelow, IsDated, IsDated-Fits, upsert-IsDated, set_stale-IsDated, written-IsDated,
  new_row-IsDated,
}
use ntulearn_skill.Sync.State.Recording.{
  final_row, final_store, final_store-IsValidStore, record_attempt-ok,
}
use mathlib.Core.List.{Permᴰ}
use mathlib.Core.Path.{subst}

-- The markers that a store holds for a scope.
abbrev found_in : Option SyncStateRow → Option Markers
found_in none = none
found_in (some row) = some (markers row)

abbrev pub found : ScopeKey → Store → Option Markers
found scope store = found_in (select scope store.states)

-- The markers of one attempt, at the instant of its time.
abbrev pub instant_of : DateTime → Instant
instant_of (DateTime.naive t) = t
instant_of (DateTime.aware t) = t

abbrev pub attempt_markers : Attempt → Markers
attempt_markers a =
    let at = instant_of a.attempted_at in
    let success = is_succeeded a.outcome in
    let full = success && is_complete a.coverage in
    record {
      attempt = (at, a.run_key);
      success = marker (when success at) (when success a.run_key);
      full = marker (when full at) (when full a.run_key);
    }

abbrev pub join? : Markers → Option Markers → Option Markers
join? m none = some m
join? m (some n) = some (join m n)

-- All attempts of a list, in order; each is recorded in the store that the last one left.
unfoldable pub record_all : ScopeKey → List Attempt → Store → Result Store
record_all scope [] store = ok store
record_all scope (a ∷ attempts) store =
    record_attempt scope a store >>= λ r. record_all scope attempts r.1

abbrev pub joined : List Attempt → Option Markers → Option Markers
joined [] m = m
joined (a ∷ attempts) m = joined attempts (join? (attempt_markers a) m)

-- The arguments pass the checks of `record_attempt`; the time is at most `latest`, the maximum age at
-- most `longest`.
abbrev pub Recordable : Instant → Duration → ScopeKey → Store → Attempt → Type 0
Recordable latest longest scope store a =
    (at : Instant) × (seconds : Option ℕ) × IsRecordable scope a at seconds store
    × (at ≤ latest)
    × IsBelow longest (seconds_to_age seconds)

markers-new_row :
    (scope : ScopeKey) (a : Attempt) (at : Instant) (seconds : Option ℕ)
    → a.attempted_at ≡ DateTime.aware at
    → markers (new_row scope a at seconds) ≡ attempt_markers a
unfolding markers attempt_row
markers-new_row scope a at seconds e = rw e

found-written :
    (runs : List ℕ) (scope : ScopeKey) (e : SyncStateRow) (rows : List SyncStateRow)
    → IsStored runs e
    → All (IsStored runs) rows
    → some (markers (written e (select scope rows)))
      ≡ join? (markers e) (found_in (select scope rows))
unfolding select
found-written runs scope e [] p h = refl
found-written runs scope e (r ∷ rows) p h = elim (Bool-cases (selects scope r)) [
  | inl same ↦ rw same (ap some (markers-merge e r p.valid.paired h.0.valid.paired))
  | inr other ↦ rw other (found-written runs scope e rows p h.1)
]

markers-restale :
    (stale : Option Instant) (r : SyncStateRow)
    → markers (record r { stale_after = stale }) ≡ markers r
unfolding markers
markers-restale stale r = refl

found-restale :
    (stale : Option Instant) (r : Option SyncStateRow) → found_in (restale stale r) ≡ found_in r
found-restale stale none = refl
found-restale stale (some r) = ap some (markers-restale stale r)

-- One attempt joins its markers to those of the scope.
pub found-final_store :
    (scope : ScopeKey) (a : Attempt) (at : Instant) (seconds : Option ℕ) (store : Store)
    → IsValidStore store
    → IsRecordable scope a at seconds store
    → found scope (final_store scope a at seconds store)
      ≡ join? (attempt_markers a) (found scope store)
found-final_store scope a at seconds store v r =
    let e = new_row scope a at seconds in
    ap found_in (select-set_stale scope _ (upsert e store.states))
    ∙ found-restale _ (select scope (upsert e store.states))
    ∙ ap found_in (select-upsert scope e store.states (new_row-HasKey scope a at seconds))
    ∙ found-written store.runs scope e store.states (new_row-IsStored scope a at seconds store r) v
    ∙ ap (λ (m : Markers). join? m (found scope store)) (markers-new_row scope a at seconds r.time)

course_of_final :
    (c : Option CourseId) (store : Store) (ps : List ProviderRow) (rows : List SyncStateRow)
    → course_of c (record store { providers = ps; states = rows }) ≡ course_of c store
unfolding course_of
course_of_final none store ps rows = refl
course_of_final (some c) store ps rows = refl

Recordable-final_store :
    (latest : Instant) (longest : Duration) (scope : ScopeKey) (a : Attempt) (at : Instant)
    (seconds : Option ℕ) (store : Store) (attempts : List Attempt)
    → All (Recordable latest longest scope store) attempts
    → All (Recordable latest longest scope (final_store scope a at seconds store)) attempts
Recordable-final_store latest longest scope a at seconds store [] h = tt
Recordable-final_store latest longest scope a at seconds store (b ∷ attempts)
      ((t, s, r, le, la), h) =
    (
      (
        t,
        s,
        record {
          run_positive = r.run_positive;
          run_exists = r.run_exists;
          consistent = r.consistent;
          time = r.time;
          few_warnings = r.few_warnings;
          age = r.age;
          observed = course_of_final scope.course_id store _ _ ∙ r.observed;
        },
        le,
        la,
      ),
      Recordable-final_store latest longest scope a at seconds store attempts h,
    )

-- A list of attempts is recorded whole, and the store joins the markers of all of them.
pub record_all-joined :
    (latest : Instant) (longest : Duration) (scope : ScopeKey) (attempts : List Attempt)
    (store : Store)
    → latest + longest ≤ max_instant
    → IsValidStore store
    → All (IsDated latest longest) store.states
    → All (Recordable latest longest scope store) attempts
    → (store' : Store) × (record_all scope attempts store ≡ ok store')
      × IsValidStore store'
      × (found scope store' ≡ joined attempts (found scope store))
unfolding record_all
record_all-joined latest longest scope [] store b v d h = (store, refl, v, refl)
record_all-joined latest longest scope (a ∷ attempts) store b v d ((at, seconds, r, le, age), h) =
    let next = final_store scope a at seconds store in
    let new = new_row-IsDated latest longest scope a at seconds le age in
    let fits =
      IsDated-Fits latest longest (final_row scope a at seconds store) b
        (written-IsDated latest longest scope (new_row scope a at seconds) store.states new d) in
    let (store', e, v', f) =
      record_all-joined latest longest scope attempts next b
        (final_store-IsValidStore scope a at seconds store v r fits)
        (set_stale-IsDated latest longest scope _ (upsert (new_row scope a at seconds) store.states)
          (upsert-IsDated latest longest (new_row scope a at seconds) store.states new d))
        (Recordable-final_store latest longest scope a at seconds store attempts h) in
    (
      store',
      rw (record_attempt-ok scope a at seconds store v r fits) e,
      v',
      f ∙ ap (joined attempts) (found-final_store scope a at seconds store v r),
    )

join?_swap : (a b : Markers) (m : Option Markers) → join? a (join? b m) ≡ join? b (join? a m)
join?_swap a b none = ap some (join_comm a b)
join?_swap a b (some m) =
    ap some (sym (join_assoc a b m) ∙ ap (λ x. join x m) (join_comm a b) ∙ join_assoc b a m)

joined-Permᴰ :
    {xs ys : List Attempt} → Permᴰ xs ys → (m : Option Markers) → joined xs m ≡ joined ys m
joined-Permᴰ Permᴰ.nil m = refl
joined-Permᴰ (Permᴰ.cons {a = a} {b = b} {l₂ = l} e p) m =
    joined-Permᴰ p (join? (attempt_markers a) m)
    ∙ ap (λ (x : Attempt). joined l (join? (attempt_markers x) m)) e
joined-Permᴰ (Permᴰ.swap {a = a} {b = b} {a' = a'} {b' = b'} {l = l} e f) m =
    ap (joined l) (join?_swap (attempt_markers b) (attempt_markers a) m)
    ∙ ap (λ (x : Attempt). joined l (join? (attempt_markers x) (join? (attempt_markers b) m))) e
    ∙ ap (λ (x : Attempt). joined l (join? (attempt_markers b') (join? (attempt_markers x) m))) f
joined-Permᴰ (Permᴰ.trans p q) m = joined-Permᴰ p m ∙ joined-Permᴰ q m

All-Permᴰ : {xs ys : List Attempt} (P : Attempt → Type 0) → Permᴰ xs ys → All P xs → All P ys
All-Permᴰ P Permᴰ.nil h = h
All-Permᴰ P (Permᴰ.cons e p) h = (subst P e h.0, All-Permᴰ P p h.1)
All-Permᴰ P (Permᴰ.swap e f) h = (subst P f h.1.0, (subst P e h.0, h.1.1))
All-Permᴰ P (Permᴰ.trans p q) h = All-Permᴰ P q (All-Permᴰ P p h)

-- Where the stored complete observations and the times of a list of attempts are at most `latest`,
-- the stored maximum ages and those of the attempts at most `longest`, and the sum of these two
-- bounds not past the year 9999: however a list of attempts whose arguments pass the checks is
-- reordered, recording it in a valid store succeeds, and the latest attempt, success and complete
-- observation of the scope (their times and their runs) come out the same.
pub record_all-Permᴰ :
    (latest : Instant) (longest : Duration) (scope : ScopeKey) {xs ys : List Attempt}
    (store : Store)
    → latest + longest ≤ max_instant
    → Permᴰ xs ys
    → IsValidStore store
    → All (IsDated latest longest) store.states
    → All (Recordable latest longest scope store) xs
    → (s t : Store) × (record_all scope xs store ≡ ok s)
      × (record_all scope ys store ≡ ok t)
      × (found scope s ≡ found scope t)
record_all-Permᴰ latest longest scope {xs} {ys} store b p v d h =
    let (s, e, _, f) = record_all-joined latest longest scope xs store b v d h in
    let (t, e', _, f') =
      record_all-joined latest longest scope ys store b v d
        (All-Permᴰ (Recordable latest longest scope store) p h) in
    (s, t, e, e', f ∙ joined-Permᴰ p (found scope store) ∙ sym f')
