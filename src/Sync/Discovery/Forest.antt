-- ===== src/Sync/Discovery/Forest.antt =====
-- src/ntulearn_skill/sync/discovery.py: what the loop over one parent keeps.
use ntulearn_skill.Prelude.{
  ℕ, zero, suc, ◌+◌, ◌≤◌, ◌<◌, String, ◌≡◌, Bool, true, false, Option, none, some, List, [], ◌∷◌,
  arith,
}
use ntulearn_skill.Core.Models.{is_complete}
use ntulearn_skill.Core.Identifiers.{CourseId, ContentId}
use ntulearn_skill.Client.Errors.{Raised, Answer}
use ntulearn_skill.Client.Records.{PageRequest, Page, ContentSourceRecord}
use ntulearn_skill.Sync.Discovery.{Progress}
use ntulearn_skill.Sync.Discovery.Paging.{
  Scan, Flow, Turn, move, one_page, cursor_seen, cursor_cycle,
}
use ntulearn_skill.Sync.Discovery.Kept.{partial-Healthy}
use ntulearn_skill.Sync.Discovery.Rounds.{Kept, Visited, Turned, one_page-Turned}
use ntulearn_skill.Sync.Discovery.Content.{Tree}
use ntulearn_skill.Sync.Discovery.Walk.{on_parent_turn, read_parent}
use ntulearn_skill.Sync.Discovery.Tree.{TreeObserved, ReadObserved}

-- A complete coverage comes from a page.
abbrev pub Counted : Progress → Type 0
Counted p = is_complete p.coverage ≡ true → 0 < p.pages_seen

module _ (course : CourseId) (max_nodes : ℕ) where
  -- The pending parents are dropped.
  cleared :
      (parent : Option ContentId) (allowance items resources : ℕ) (t : Tree)
      → ReadObserved course max_nodes parent 0 allowance items resources t
      → ReadObserved course max_nodes parent 0 allowance items resources (record t { pending = [] })
  unfolding ReadObserved TreeObserved
  cleared parent allowance items resources t ((n, r, m, u, f, v, p, a), k) =
      ((n, r, m, u, f, v, tt, omega (arith, a)), k)

  pub ReadObserved-tree :
      (parent : Option ContentId) (allowance items resources : ℕ) (t : Tree)
      → ReadObserved course max_nodes parent 0 allowance items resources t
      → TreeObserved course max_nodes 0 allowance items resources t
  unfolding ReadObserved
  ReadObserved-tree parent allowance items resources t (o, k) = o

module _ {W : Type 0} (course : CourseId) (max_nodes : ℕ) where
  unfoldable pub ParentRead :
      Option ContentId → ℕ → ℕ → Scan Tree W → Option Raised × Scan Tree W → Type 0
  ParentRead parent allowance left s (o, t) =
      Kept (ReadObserved course max_nodes parent 0 allowance) t
      × (t.progress.pages_seen ≤ s.progress.pages_seen + left)
      × (o ≡ none → Counted t.progress)

  pub read_parent-ParentRead :
      (parent : Option ContentId) (allowance : ℕ)
      (list_page : PageRequest → W → Answer (Page ContentSourceRecord) × W)
      (visit : ContentSourceRecord → Scan Tree W → Flow × Scan Tree W)
      → ((item : ContentSourceRecord) (s : Scan Tree W)
          → Kept (ReadObserved course max_nodes parent 0 allowance) s
          → Visited (ReadObserved course max_nodes parent 0 allowance) s (visit item s))
      → (page_size left : ℕ) (cursor : Option String) (seen : List (Option String))
        (s : Scan Tree W)
      → Kept (ReadObserved course max_nodes parent 0 allowance) s
      → ParentRead parent allowance left s
          (read_parent list_page visit page_size left cursor seen s)
  unfolding read_parent ParentRead
  read_parent-ParentRead parent allowance list_page visit keeps page_size zero cursor seen s
        (h, k) =
      (
        (
          partial-Healthy _ _ s.progress,
          cleared course max_nodes parent allowance s.progress.items_seen s.progress.resources_seen
              s.found k,
        ),
        omega arith,
        λ o e. cc,
      )
  read_parent-ParentRead parent allowance list_page visit keeps page_size (suc left) cursor seen s
        (h, k) =
      chosen (cursor_seen cursor seen) _ (
        turned (one_page list_page visit page_size cursor s)
          (one_page-Turned (ReadObserved course max_nodes parent 0 allowance) list_page visit keeps
            page_size cursor s (h, k))
          (λ c.
            read_parent-ParentRead parent allowance list_page visit keeps page_size left (some c)
              (cursor ∷ seen)))
    where
      turned :
          (r : Turn × Scan Tree W)
          → Turned (ReadObserved course max_nodes parent 0 allowance) s r
          → ((c : String) (t : Scan Tree W)
              → Kept (ReadObserved course max_nodes parent 0 allowance) t
              → ParentRead parent allowance left t
                  (read_parent list_page visit page_size left (some c) (cursor ∷ seen) t))
          → ParentRead parent allowance (suc left) s (
              on_parent_turn r
                (λ c. read_parent list_page visit page_size left (some c) (cursor ∷ seen)))
      turned (Turn.failed r, t) (k, e) rest = (k, omega (arith, e), λ e. cc)
      turned (Turn.stopped, t) (k, e, d) rest = (k, omega (arith, e), λ o c. omega (arith, e))
      turned (Turn.last, t) (k, e) rest = (k, omega (arith, e), λ o c. omega (arith, e))
      turned (Turn.more c, t) (k, e) rest =
          let (k', n, d) = rest c t k in (k', omega (arith, e, n), d)

      chosen :
          (b : Bool) (r : Option Raised × Scan Tree W)
          → ParentRead parent allowance (suc left) s r
          → ParentRead parent allowance
              (suc left)
              s
              (elim b [ true ↦ (none, move cursor_cycle s) | false ↦ r ])
      chosen true r d = ((partial-Healthy _ _ s.progress, k), omega arith, λ o e. cc)
      chosen false r d = d
