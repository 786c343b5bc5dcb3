-- ===== src/Sync/Lifecycle/Preservation.antt =====
-- What the loop of `ResourceInventoryReconciler.reconcile` (src/ntulearn_skill/sync/lifecycle.py) may
-- change: resources that the inventory left out become missing, observations are added at the end.
use ntulearn_skill.Prelude.{
  if◌then◌else◌, Bool-cases, any, All, All-append, append_nil, append_assoc, contains, ℕ, ◌≡◌, refl,
  sym, ap, ◌∙◌, ◌⊎◌, inl, inr, Bool, true, false, ◌||◌, List, [], ◌∷◌, ◌++◌, arith,
}
use ntulearn_skill.Core.Models.{Availability, Instant}
use ntulearn_skill.Sync.Lifecycle.{
  Resource, Observation, ResourceRow, is_removed, is_not_observed, is_unknown,
}
use ntulearn_skill.Sync.Lifecycle.Loop.{
  Progress, is_recorded, is_markable, mark_missing, new_observation, is_skipped, can_mark_missing,
  mark_row, visit, visit_all,
}
use mathlib.Core.Path.{subst}

abbrev pub marked : Resource → Resource
marked r = record r { availability = Availability.missing }

-- A resource is left alone, or it becomes missing: one that was not seen, whose removal was not
-- confirmed.
abbrev pub Kept : List ℕ → Resource → Resource → Type 0
Kept seen old new =
    (new ≡ old)
    ⊎ ((new ≡ marked old) × (contains old.key seen ≡ false) × (is_removed old.availability ≡ false))

pub data AllKept (seen : List ℕ) : List Resource → List Resource → Type 0 where
  nil : AllKept seen [] []
  cons :
      {r s : Resource} {rs ss : List Resource}
      → Kept seen r s
      → AllKept seen rs ss
      → AllKept seen (r ∷ rs) (s ∷ ss)

AllKept-refl : (seen : List ℕ) (rs : List Resource) → AllKept seen rs rs
AllKept-refl seen [] = AllKept.nil
AllKept-refl seen (r ∷ rs) = AllKept.cons (inl refl) (AllKept-refl seen rs)

Kept-trans : (seen : List ℕ) {r s t : Resource} → Kept seen r s → Kept seen s t → Kept seen r t
Kept-trans seen (inl e) (inl f) = inl (f ∙ e)
Kept-trans seen {r} {s} {t} (inl e) (inr k) = subst (λ x. Kept seen x t) e (inr k)
Kept-trans seen (inr (e, k, m)) (inl f) = inr (f ∙ e, k, m)
Kept-trans seen (inr (e, k, m)) (inr (f, _, _)) = inr (f ∙ ap marked e, k, m)

AllKept-trans :
    {seen : List ℕ} {rs ss ts : List Resource}
    → AllKept seen rs ss
    → AllKept seen ss ts
    → AllKept seen rs ts
AllKept-trans AllKept.nil AllKept.nil = AllKept.nil
AllKept-trans (AllKept.cons k ks) (AllKept.cons l ls) =
    AllKept.cons (Kept-trans _ k l) (AllKept-trans ks ls)

-- The observations that a run adds are its own, and they say that something was not seen.
abbrev pub IsOmission : ℕ → Instant → Observation → Type 0
IsOmission run at o =
    (o.run_key ≡ run)
    × (o.observed_at ≡ at)
    × ((is_not_observed o.status || is_unknown o.status) ≡ true)

module _ (comparable : Bool) (run : ℕ) (at : Instant) (seen : List ℕ) where
  mark_one-Kept :
      (key : ℕ) (os : List Observation) (r : Resource)
      → contains key seen ≡ false
      → Kept seen r (if is_markable key run at os r then marked r else r)
  unfolding is_markable
  mark_one-Kept key os r h = elim (Bool-cases (is_markable key run at os r)) [
    | inl m ↦ let same : r.key ≡ key = ground arith in inr (rw m refl, rw same h, ground arith)
    | inr m ↦ inl (rw m refl)
  ]

  mark_missing-AllKept :
      (key : ℕ) (os : List Observation) (rs : List Resource)
      → contains key seen ≡ false
      → AllKept seen rs (mark_missing key run at os rs)
  unfolding mark_missing
  mark_missing-AllKept key os [] h = AllKept.nil
  mark_missing-AllKept key os (r ∷ rs) h =
      AllKept.cons (mark_one-Kept key os r h) (mark_missing-AllKept key os rs h)

  -- What one round of the loop, and the loop, keep.
  pub record Extends (p q : Progress) : Type 0 where
    pub kept : AllKept seen p.resources q.resources
    pub added : List Observation
    pub observations : q.observations ≡ p.observations ++ added
    pub omissions : All (IsOmission run at) added

  Extends-refl : (p : Progress) → Extends p p
  Extends-refl p = record {
    kept = AllKept-refl seen p.resources;
    added = [];
    observations = sym (append_nil p.observations);
    omissions = tt;
  }

  Extends-trans : (p q r : Progress) → Extends p q → Extends q r → Extends p r
  Extends-trans p q r e f = record {
    kept = AllKept-trans e.kept f.kept;
    added = e.added ++ f.added;
    observations =
        f.observations
        ∙ ap (λ os. os ++ f.added) e.observations
        ∙ append_assoc p.observations e.added f.added;
    omissions = All-append (IsOmission run at) e.added f.added e.omissions f.omissions;
  }

  new_observation-IsOmission :
      (row : ResourceRow) (b : Bool) → IsOmission run at (new_observation row run b at)
  new_observation-IsOmission row true = (refl, refl, refl)
  new_observation-IsOmission row false = (refl, refl, refl)

  mark_row-Extends :
      (row : ResourceRow) (p : Progress)
      → contains row.key seen ≡ false
      → Extends p (mark_row comparable run at seen row p)
  unfolding mark_row
  mark_row-Extends row p h = elim (Bool-cases (can_mark_missing comparable run at seen row)) [
    | inl m ↦ rw m (record {
      kept = mark_missing-AllKept row.key _ p.resources h;
      added = new_observation row run true at ∷ [];
      observations = refl;
      omissions = (new_observation-IsOmission row true, tt);
    })
    | inr m ↦ rw m (record {
      kept = AllKept-refl seen p.resources;
      added = new_observation row run false at ∷ [];
      observations = refl;
      omissions = (new_observation-IsOmission row false, tt);
    })
  ]

  visit-Extends :
      (row : ResourceRow) (p : Progress) → Extends p (visit comparable run at seen row p)
  unfolding visit is_skipped
  visit-Extends row p =
      elim (Bool-cases
        (is_skipped comparable run at seen row || any (is_recorded row.key run) p.observations)) [
          | inl skip ↦ rw skip (Extends-refl p)
          | inr go ↦ rw go (mark_row-Extends row p (ground arith))
        ]

  pub visit_all-Extends :
      (rows : List ResourceRow) (p : Progress) → Extends p (visit_all comparable run at seen rows p)
  unfolding visit_all
  visit_all-Extends [] p = Extends-refl p
  visit_all-Extends (row ∷ rows) p =
      Extends-trans p (visit comparable run at seen row p) _ (visit-Extends row p)
        (visit_all-Extends rows (visit comparable run at seen row p))

-- An inventory that is not a complete one leaves the resources and two of the counters alone.
module _ (run : ℕ) (at : Instant) (seen : List ℕ) where
  pub record IsUncertain (p q : Progress) : Type 0 where
    pub resources : q.resources ≡ p.resources
    pub missing : q.missing ≡ p.missing
    pub candidates : q.candidates ≡ p.candidates

  visit-IsUncertain :
      (row : ResourceRow) (p : Progress) → IsUncertain p (visit false run at seen row p)
  unfolding visit mark_row
  visit-IsUncertain row p =
      elim (Bool-cases
        (is_skipped false run at seen row || any (is_recorded row.key run) p.observations)) [
          | inl skip ↦ rw skip (record { resources = refl; missing = refl; candidates = refl })
          | inr go ↦ rw go (record { resources = refl; missing = refl; candidates = refl })
        ]

  pub visit_all-IsUncertain :
      (rows : List ResourceRow) (p : Progress) → IsUncertain p (visit_all false run at seen rows p)
  unfolding visit_all
  visit_all-IsUncertain [] p = record { resources = refl; missing = refl; candidates = refl }
  visit_all-IsUncertain (row ∷ rows) p =
      let first = visit-IsUncertain row p in
      let rest = visit_all-IsUncertain rows (visit false run at seen row p) in
      record {
        resources = rest.resources ∙ first.resources;
        missing = rest.missing ∙ first.missing;
        candidates = rest.candidates ∙ first.candidates;
      }
