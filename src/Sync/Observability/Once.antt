-- ===== src/Sync/Observability/Once.antt =====
-- src/ntulearn_skill/sync/observability.py: a run ends once.
use ntulearn_skill.Prelude.{
  ◌==◌, any, count_if, Error, value_error, storage_error, err, ok, raise_if, >>=-returns, ℕ, String,
  ◌≡◌, refl, sym, ap, ◌∙◌, Bool, true, false, ◌||◌, not, Option, List, [], ◌∷◌, arith,
}
use ntulearn_skill.Core.Models.{SyncRunStatus, Instant}
use ntulearn_skill.Sync.Models.{SyncWarning}
use ntulearn_skill.Sync.Observability.{Count, SyncRunRow, Book, SyncRunResult}
use ntulearn_skill.Sync.Observability.Finish.{
  is_running, is_negative_count, get, end_run, is_open, end_runs, finish,
}
use mathlib.Core.Path.{subst}

end_runs-open :
    (key : ℕ) (status : SyncRunStatus) (counts : List Count) (warnings : List SyncWarning)
    (category : Option String) (now : Instant) (runs : List SyncRunRow)
    → is_running status ≡ false
    → count_if (is_open key) (end_runs key (end_run status counts warnings category now) runs) ≡ 0
unfolding end_runs
end_runs-open key status counts warnings category now [] s = refl
end_runs-open key status counts warnings category now (r ∷ runs) s =
    ground (arith, end_runs-open key status counts warnings category now runs s)

-- `finish` on tables where no run with the key is open.
finish-closed :
    (key : ℕ) (status : SyncRunStatus) (counts : List Count) (warnings : List SyncWarning)
    (category : Option String) (now : Instant) (book : Book)
    → (key == 0) ≡ false
    → is_running status ≡ false
    → any is_negative_count counts ≡ false
    → count_if (is_open key) book.runs ≡ 0
    → finish key status counts warnings category now book
      ≡ err (storage_error "sync run operation failed")
unfolding finish
finish-closed key status counts warnings category now book z s c o = rw (z, s, c, o) refl

raise_if-passed : (b : Bool) (e : Error) (u : Unit {0}) → raise_if b e ≡ ok u → b ≡ false
raise_if-passed false e u p = refl
raise_if-passed true e u p = cc

-- What a `finish` that returns went through.
finish-returns :
    (key : ℕ) (status : SyncRunStatus) (counts : List Count) (warnings : List SyncWarning)
    (category : Option String) (now : Instant) (book after : Book) (result : SyncRunResult)
    → finish key status counts warnings category now book ≡ ok (result, after)
    → ((key == 0) ≡ false)
      × (is_running status ≡ false)
      × (get key after ≡ ok result)
      × (after.runs ≡ end_runs key (end_run status counts warnings category now) book.runs)
      × (after.scopes ≡ book.scopes)
unfolding finish
finish-returns key status counts warnings category now book after result e =
    let (u, a, e1) =
      >>=-returns
        (raise_if (key == 0 || is_running status)
          (value_error "sync run cannot finish with this status"))
        _ e in
    let (v, b, e2) =
      >>=-returns
        (raise_if (any is_negative_count counts)
          (value_error "sync counts must be non-negative integers"))
        _ e1 in
    let (x, c, e3) =
      >>=-returns
        (raise_if (not (count_if (is_open key) book.runs == 1))
          (storage_error "sync run operation failed"))
        _ e2 in
    let runs = end_runs key (end_run status counts warnings category now) book.runs in
    let (r, g, e4) = >>=-returns (get key (record book { runs = runs })) _ e3 in
    let p = raise_if-passed _ _ u a in
    let written : Book = record book { runs = runs } in
    let same : written ≡ after = cc in
    let returned : r ≡ result = cc in
    (
      ground (arith),
      ground (arith),
      subst (λ l. get key l ≡ ok result) same (g ∙ ap ok returned),
      ap (λ l. l.runs) (sym same),
      ap (λ l. l.scopes) (sym same),
    )

-- Once `finish` returned a result for a run, `get` returns that result for it, the scopes are those
-- recorded before, and another `finish` for the run, with an ended status and counts that are not
-- negative, raises the storage error.
pub finish-once :
    (key : ℕ) (status again : SyncRunStatus) (counts more : List Count)
    (warnings others : List SyncWarning) (category other : Option String) (now later : Instant)
    (book after : Book) (result : SyncRunResult)
    → finish key status counts warnings category now book ≡ ok (result, after)
    → is_running again ≡ false
    → any is_negative_count more ≡ false
    → (get key after ≡ ok result)
      × (after.scopes ≡ book.scopes)
      × (finish key again more others other later after
          ≡ err (storage_error "sync run operation failed"))
finish-once key status again counts more warnings others category other now later book after result
      e s' c =
    let (z, s, g, r, k) =
      finish-returns key status counts warnings category now book after result e in
    (
      g,
      k,
      finish-closed key again more others other later after z s' c (
          ap (count_if (is_open key)) r
          ∙ end_runs-open key status counts warnings category now book.runs s),
    )
