-- ===== src/Sync/Discovery/Rounds.antt =====
-- src/ntulearn_skill/sync/discovery.py: what a round and a paging loop keep, whatever the visits collect.
use ntulearn_skill.Prelude.{
  Result, err, ok, ℕ, zero, suc, ◌+◌, ◌≤◌, String, ◌≡◌, refl, sym, ◌∙◌, Bool, true, false, Option,
  none, some, List, [], ◌∷◌, arith,
}
use ntulearn_skill.Client.Errors.{Raised, Answer}
use ntulearn_skill.Client.Records.{PageRequest, make_page_request, Page}
use ntulearn_skill.Sync.Discovery.{Progress, merge_page_coverage}
use ntulearn_skill.Sync.Discovery.Paging.{
  Scan, Flow, Turn, continue_with, next_turn, move, count_page, visit_all, on_merged, on_page,
  on_request, one_page, cursor_seen, cursor_cycle, on_turn, pages,
}
use ntulearn_skill.Sync.Discovery.Kept.{
  Healthy, Comparable, Ended, partial-Healthy, partial-Comparable, finished-Comparable,
  merge-Healthy,
}
use mathlib.Core.Path.{subst}

abbrev at : {X W : Type 0} → W → Scan X W → Scan X W
at w s = record s { world = w }

module _ {X W : Type 0} (R : ℕ → ℕ → X → Type 0) where
  abbrev pub Kept : Scan X W → Type 0
  Kept s = Healthy s.progress × R s.progress.items_seen s.progress.resources_seen s.found

  -- What the visit of an item promises: it reads no page, and it stops at a mark or at a fault.
  abbrev pub Visited : Scan X W → Flow × Scan X W → Type 0
  Visited s (Flow.go, t) = Kept t × (t.progress.pages_seen ≡ s.progress.pages_seen)
  Visited s (Flow.throw r, t) = Kept t × (t.progress.pages_seen ≡ s.progress.pages_seen)
  Visited s (Flow.stop, t) =
      Kept t × (t.progress.pages_seen ≡ s.progress.pages_seen) × Ended t.progress

  abbrev pub Turned : Scan X W → Turn × Scan X W → Type 0
  Turned s (Turn.failed r, t) = Kept t × (t.progress.pages_seen ≤ s.progress.pages_seen + 1)
  Turned s (Turn.stopped, t) =
      Kept t × (t.progress.pages_seen ≡ s.progress.pages_seen + 1) × Ended t.progress
  Turned s (Turn.last, t) = Kept t × (t.progress.pages_seen ≡ s.progress.pages_seen + 1)
  Turned s (Turn.more c, t) = Kept t × (t.progress.pages_seen ≡ s.progress.pages_seen + 1)

  -- What a loop over pages leaves, read from a state with `left` rounds to go.
  abbrev pub Looped : ℕ → Scan X W → Option Raised × Scan X W → Type 0
  Looped left s (o, t) =
      Kept t
      × (t.progress.pages_seen ≤ s.progress.pages_seen + left)
      × (o ≡ none → Comparable t.progress)

  pub Kept-restart :
      (s : Scan X W) (p : Progress)
      → Healthy p
        × (p.pages_seen ≡ s.progress.pages_seen)
        × (p.items_seen ≡ s.progress.items_seen)
        × (p.resources_seen ≡ s.progress.resources_seen)
      → Kept s
      → Kept (record s { progress = p })
  Kept-restart s p (h, _, i, r) (_, k) = (
    h,
    subst (λ n. R n p.resources_seen s.found) (sym i)
        (subst (λ n. R s.progress.items_seen n s.found) (sym r) k),
  )

module _ {A X W : Type 0} (R : ℕ → ℕ → X → Type 0) (visit : A → Scan X W → Flow × Scan X W)
    (keeps : (item : A) (s : Scan X W) → Kept R s → Visited R s (visit item s)) where
  pub visit_all-Visited :
      (items : List A) (s : Scan X W) → Kept R s → Visited R s (visit_all visit items s)
  unfolding visit_all
  visit_all-Visited [] s h = (h, refl)
  visit_all-Visited (item ∷ items) s h =
      after (visit item s) (keeps item s h) (visit_all-Visited items)
    where
      moved :
          (t : Scan X W) (r : Flow × Scan X W)
          → t.progress.pages_seen ≡ s.progress.pages_seen
          → Visited R t r
          → Visited R s r
      moved t (Flow.go, u) e (k, f) = (k, f ∙ e)
      moved t (Flow.stop, u) e (k, f, d) = (k, f ∙ e, d)
      moved t (Flow.throw r, u) e (k, f) = (k, f ∙ e)

      after :
          (r : Flow × Scan X W)
          → Visited R s r
          → ((t : Scan X W) → Kept R t → Visited R t (visit_all visit items t))
          → Visited R s (continue_with r (visit_all visit items))
      after (Flow.go, t) (k, e) rest = moved t (visit_all visit items t) e (rest t k)
      after (Flow.stop, t) v rest = v
      after (Flow.throw r, t) v rest = v

module _ {A X W : Type 0} (R : ℕ → ℕ → X → Type 0)
    (list_page : PageRequest → W → Answer (Page A) × W) (visit : A → Scan X W → Flow × Scan X W)
    (keeps : (item : A) (s : Scan X W) → Kept R s → Visited R s (visit item s)) where
  next_turn-Turned :
      (next : Option String) (s t : Scan X W) (r : Flow × Scan X W)
      → t.progress.pages_seen ≡ s.progress.pages_seen + 1
      → Visited R t r
      → Turned R s (next_turn next r)
  next_turn-Turned none s t (Flow.go, u) e (k, f) = (k, f ∙ e)
  next_turn-Turned (some c) s t (Flow.go, u) e (k, f) = (k, f ∙ e)
  next_turn-Turned none s t (Flow.stop, u) e (k, f, d) = (k, f ∙ e, d)
  next_turn-Turned (some c) s t (Flow.stop, u) e (k, f, d) = (k, f ∙ e, d)
  next_turn-Turned none s t (Flow.throw r, u) e (k, f) = (k, omega (arith, f, e))
  next_turn-Turned (some c) s t (Flow.throw r, u) e (k, f) = (k, omega (arith, f, e))

  on_page-Turned :
      (s : Scan X W) (r : Answer (Page A) × W) → Kept R s → Turned R s (on_page visit s r)
  unfolding visit_all merge_page_coverage
  on_page-Turned s (Answer.raised r, w) k = (k, omega arith)
  on_page-Turned s (Answer.returned page, w) (h, k) =
      merging (merge_page_coverage page.coverage_for_page (move count_page (at w s)).progress) refl
    where
      merging :
          (m : Answer Progress)
          → merge_page_coverage page.coverage_for_page (move count_page (at w s)).progress ≡ m
          → Turned R s (on_merged visit page (move count_page (at w s)) m)
      merging (Answer.raised r) e = ((h, k), omega arith)
      merging (Answer.returned p) e =
          let merged = merge-Healthy page.coverage_for_page (count_page s.progress) p e h in
          let after = record (at w s) { progress = p } in
          let kept = Kept-restart R (move count_page (at w s)) p merged (h, k) in
          next_turn-Turned page.next_cursor s after (visit_all visit page.items after) merged.1
            (visit_all-Visited R visit keeps page.items after kept)

  pub one_page-Turned :
      (page_size : ℕ) (cursor : Option String) (s : Scan X W)
      → Kept R s
      → Turned R s (one_page list_page visit page_size cursor s)
  unfolding one_page
  one_page-Turned page_size cursor s k = requested (make_page_request cursor page_size)
    where
      requested : (r : Result PageRequest) → Turned R s (on_request list_page visit s r)
      requested (err raised) = (k, omega arith)
      requested (ok request) = on_page-Turned s (list_page request s.world) k

  pub pages-Looped :
      (page_size left : ℕ) (cursor : Option String) (seen : List (Option String)) (s : Scan X W)
      → Kept R s
      → Looped R left s (pages list_page visit page_size left cursor seen s)
  unfolding pages
  pages-Looped page_size zero cursor seen s (h, k) =
      ((partial-Healthy _ _ s.progress, k), omega arith, λ e. partial-Comparable _ _ s.progress)
  pages-Looped page_size (suc left) cursor seen s (h, k) = chosen (cursor_seen cursor seen) _ (
      turned (one_page list_page visit page_size cursor s)
        (one_page-Turned page_size cursor s (h, k))
        (λ c. pages-Looped page_size left (some c) (cursor ∷ seen)))
    where
      turned :
          (r : Turn × Scan X W)
          → Turned R s r
          → ((c : String) (t : Scan X W)
              → Kept R t
              → Looped R left t (pages list_page visit page_size left (some c) (cursor ∷ seen) t))
          → Looped R
              (suc left)
              s
              (on_turn r (λ c. pages list_page visit page_size left (some c) (cursor ∷ seen)))
      turned (Turn.failed r, t) (k, e) rest = (k, omega (arith, e), λ e. cc)
      turned (Turn.stopped, t) ((h, k), e, d) rest =
          ((h, k), omega (arith, e), λ n e'. let (f, w) = h e' in (d e', f, w, omega (arith, e)))
      turned (Turn.last, t) ((h, k), e) rest =
          ((h, k), omega (arith, e), λ n. finished-Comparable t.progress h (omega (arith, e)))
      turned (Turn.more c, t) (k, e) rest =
          let (k', b, d) = rest c t k in (k', omega (arith, e, b), d)

      chosen :
          (b : Bool) (r : Option Raised × Scan X W)
          → Looped R (suc left) s r
          → Looped R (suc left) s (elim b [ true ↦ (none, move cursor_cycle s) | false ↦ r ])
      chosen true r d =
          ((partial-Healthy _ _ s.progress, k), omega arith, λ e. partial-Comparable _ _ s.progress)
      chosen false r d = d
