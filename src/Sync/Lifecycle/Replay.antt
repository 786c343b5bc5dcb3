-- ===== src/Sync/Lifecycle/Replay.antt =====
-- Replaying the loop of `ResourceInventoryReconciler.reconcile` (src/ntulearn_skill/sync/lifecycle.py):
-- an observation of the run keeps a resource from being visited again.
use ntulearn_skill.Prelude.{
  Bool-cases, any, All, any-append, ℕ, ◌≡◌, refl, inl, inr, Bool, true, false, ◌||◌, List, [], ◌∷◌,
  arith,
}
use ntulearn_skill.Core.Models.{Instant}
use ntulearn_skill.Sync.Lifecycle.{ResourceRow}
use ntulearn_skill.Sync.Lifecycle.Loop.{
  Progress, is_recorded, new_observation, is_skipped, can_mark_missing, mark_row, visit, visit_all,
}
use ntulearn_skill.Sync.Lifecycle.Preservation.{Extends, visit_all-Extends}

module _ (comparable : Bool) (run : ℕ) (at : Instant) (seen : List ℕ) where
  -- A row that the loop passes over.
  abbrev pub is_passed : Progress → ResourceRow → Bool
  is_passed p row =
      is_skipped comparable run at seen row || any (is_recorded row.key run) p.observations

  visit-passed :
      (row : ResourceRow) (p : Progress)
      → is_passed p row ≡ true
      → visit comparable run at seen row p ≡ p
  unfolding visit
  visit-passed row p h = rw h refl

  mark_row-passed :
      (row : ResourceRow) (p : Progress)
      → is_passed (mark_row comparable run at seen row p) row ≡ true
  unfolding mark_row
  mark_row-passed row p = elim (Bool-cases (can_mark_missing comparable run at seen row)) [
    | inl m ↦ rw m (
        ground (
          arith,
          any-append (is_recorded row.key run) p.observations
              (new_observation row run true at ∷ []),
        ))
    | inr m ↦ rw m (
        ground (
          arith,
          any-append (is_recorded row.key run) p.observations
              (new_observation row run false at ∷ []),
        ))
  ]

  -- A visit passes over its row from then on.
  visit-is_passed :
      (row : ResourceRow) (p : Progress) → is_passed (visit comparable run at seen row p) row ≡ true
  unfolding visit
  visit-is_passed row p = elim (Bool-cases (is_passed p row)) [
    | inl skip ↦ rw skip skip
    | inr go ↦ rw go (mark_row-passed row p)
  ]

  Extends-is_passed :
      (p q : Progress) (row : ResourceRow)
      → Extends comparable run at seen p q
      → is_passed p row ≡ true
      → is_passed q row ≡ true
  Extends-is_passed p q row e h =
      ground (arith, h, e.observations, any-append (is_recorded row.key run) p.observations e.added)

  visit_all-is_passed :
      (rows : List ResourceRow) (p : Progress)
      → All (λ row. is_passed (visit_all comparable run at seen rows p) row ≡ true) rows
  unfolding visit_all
  visit_all-is_passed [] p = tt
  visit_all-is_passed (row ∷ rows) p =
      let q = visit comparable run at seen row p in
      (
        Extends-is_passed q (visit_all comparable run at seen rows q) row
            (visit_all-Extends comparable run at seen rows q) (visit-is_passed row p),
        visit_all-is_passed rows q,
      )

  passed-visit_all :
      (rows : List ResourceRow) (p : Progress)
      → All (λ row. is_passed p row ≡ true) rows
      → visit_all comparable run at seen rows p ≡ p
  unfolding visit_all
  passed-visit_all [] p h = refl
  passed-visit_all (row ∷ rows) p (h, hs) = rw (visit-passed row p h) (passed-visit_all rows p hs)

  -- To visit the same rows once more, for the same run and time, with the tables and the counters
  -- that the first pass left, changes nothing.
  pub visit_all_idem :
      (rows : List ResourceRow) (p : Progress)
      → visit_all comparable run at seen rows (visit_all comparable run at seen rows p)
        ≡ visit_all comparable run at seen rows p
  visit_all_idem rows p =
      passed-visit_all rows (visit_all comparable run at seen rows p) (visit_all-is_passed rows p)
