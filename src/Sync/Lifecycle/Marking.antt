-- ===== src/Sync/Lifecycle/Marking.antt =====
-- Which resources the loop of `ResourceInventoryReconciler.reconcile`
-- (src/ntulearn_skill/sync/lifecycle.py) has to mark as missing.
use ntulearn_skill.Prelude.{
  ◌==◌, Bool-cases, any, All, any-append, ℕ, ◌≡◌, sym, inl, inr, Bool, true, false, ◌||◌, not, List,
  [], ◌∷◌, ◌++◌, arith,
}
use ntulearn_skill.Core.Models.{Instant}
use ntulearn_skill.Sync.Lifecycle.{
  Resource, Observation, ResourceRow, is_missing, is_removed, is_unavailable,
}
use ntulearn_skill.Sync.Lifecycle.Loop.{
  Progress, is_authoritative, is_markable, mark_missing, new_observation, mark_row, visit,
  visit_all,
}
use ntulearn_skill.Sync.Lifecycle.Preservation.{Kept, AllKept, visit_all-Extends}
use ntulearn_skill.Sync.Lifecycle.Replay.{is_passed}
use mathlib.Core.Path.{subst}

-- A resource of a key is missing, or its removal was confirmed, or an observation that is later than
-- the run's speaks for it.
abbrev pub is_settled : ℕ → ℕ → Instant → List Observation → Resource → Bool
is_settled key run at observations r =
    not (r.key == key)
    || is_removed r.availability
    || is_missing r.availability
    || any (is_authoritative key run at) observations

any-kept :
    (key run : ℕ) (at : Instant) (os more : List Observation)
    → any (is_authoritative key run at) os ≡ true
    → any (is_authoritative key run at) (os ++ more) ≡ true
any-kept key run at os more h = ground (arith, h, any-append (is_authoritative key run at) os more)

marked-settled :
    (key run : ℕ) (at : Instant) (os : List Observation) (rs : List Resource)
    → All (λ r. is_settled key run at os r ≡ true) (mark_missing key run at os rs)
unfolding mark_missing is_markable
marked-settled key run at os [] = tt
marked-settled key run at os (r ∷ rs) = (
  elim (Bool-cases (is_markable key run at os r)) [
    | inl m ↦ ground (arith, m)
    | inr n ↦ ground (arith, n)
  ],
  marked-settled key run at os rs,
)

module _ (seen : List ℕ) (key run : ℕ) (at : Instant) where
  Kept-settled :
      (os more : List Observation) (r s : Resource)
      → Kept seen r s
      → is_settled key run at os r ≡ true
      → is_settled key run at (os ++ more) s ≡ true
  Kept-settled os more r s (inl e) h =
      ground (arith, e, h, any-append (is_authoritative key run at) os more)
  Kept-settled os more r s (inr (e, _, _)) h =
      ground (arith, e, h, any-append (is_authoritative key run at) os more)

  AllKept-settled :
      (os more : List Observation) (rs ss : List Resource)
      → AllKept seen rs ss
      → All (λ r. is_settled key run at os r ≡ true) rs
      → All (λ r. is_settled key run at (os ++ more) r ≡ true) ss
  AllKept-settled os more rs ss AllKept.nil h = tt
  AllKept-settled os more rs ss (AllKept.cons {r = r} {s = s} {rs = rs'} {ss = ss'} k ks) (p, h) =
      (Kept-settled os more r s k p, AllKept-settled os more rs' ss' ks h)

mark_row-settled :
    (run : ℕ) (at : Instant) (seen : List ℕ) (row : ResourceRow) (p : Progress)
    → is_unavailable row.parent_availability ≡ false
    → All
        (λ r. is_settled row.key run at (mark_row true run at seen row p).observations r ≡ true)
        (mark_row true run at seen row p).resources
unfolding mark_row
mark_row-settled run at seen row p a = rw a (
    marked-settled row.key run at (p.observations ++ new_observation row run true at ∷ [])
      p.resources)

visit-settled :
    (run : ℕ) (at : Instant) (seen : List ℕ) (row : ResourceRow) (p : Progress)
    → is_passed true run at seen p row ≡ false
    → is_unavailable row.parent_availability ≡ false
    → All
        (λ r. is_settled row.key run at (visit true run at seen row p).observations r ≡ true)
        (visit true run at seen row p).resources
unfolding visit
visit-settled run at seen row p n a = rw n (mark_row-settled run at seen row p a)

-- When the loop of a complete and comparable inventory comes to a resource that it does not pass
-- over, and whose parent is available, then after this and any further rows every resource of that
-- key is missing, or its removal was confirmed, or an observation later than the run's speaks for it.
pub visit_all-settled :
    (run : ℕ) (at : Instant) (seen : List ℕ) (row : ResourceRow) (rows : List ResourceRow)
    (p : Progress)
    → is_passed true run at seen p row ≡ false
    → is_unavailable row.parent_availability ≡ false
    → All
        (λ r.
          is_settled row.key run at (visit_all true run at seen (row ∷ rows) p).observations r
          ≡ true)
        (visit_all true run at seen (row ∷ rows) p).resources
unfolding visit_all
visit_all-settled run at seen row rows p n a =
    let q = visit true run at seen row p in
    let e = visit_all-Extends true run at seen rows q in
    let out = visit_all true run at seen rows q in
    subst
      (λ (os : List Observation). All (λ r. is_settled row.key run at os r ≡ true) out.resources)
      (sym e.observations)
      (AllKept-settled seen row.key run at q.observations e.added q.resources out.resources e.kept
        (visit-settled run at seen row p n a))
