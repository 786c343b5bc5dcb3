-- ===== src/Sync/Discovery/Walk.antt =====
-- src/ntulearn_skill/sync/discovery.py: the two loops of `_content` round its items.
use ntulearn_skill.Prelude.{
  if◌then◌else◌, is_none, any, one_of, ℕ, zero, suc, ◌+◌, ◌-◌, String, Bool, true, false, Option,
  none, some, List, [], ◌∷◌,
}
use ntulearn_skill.Core.Identifiers.{CourseId, ContentId}
use ntulearn_skill.Client.Errors.{Raised, Answer}
use ntulearn_skill.Client.Records.{AuthorizedReadSession, PageRequest, Page, ContentSourceRecord}
use ntulearn_skill.Sync.Models.{ScopeResult}
use ntulearn_skill.Sync.Discovery.{Progress, no_progress, Backend, scope_of, after_raise}
use ntulearn_skill.Sync.Discovery.Paging.{
  Scan, Flow, Turn, move, one_page, cursor_seen, page_cap, cursor_cycle, finished,
}
use ntulearn_skill.Sync.Discovery.Content.{Tree, same_parent, visit_node}

-- The report of the cap on pages, and `parents.clear()`.
abbrev pub content_page_cap : {W : Type 0} → Scan Tree W → Scan Tree W
content_page_cap s = record s {
  progress = page_cap s.progress;
  found = record s.found { pending = [] };
}

-- `progress.failure_category in {…}`
abbrev pub is_capped : Progress → Bool
is_capped p = elim p.failure_category [
  | none ↦ false
  | some c ↦ one_of c ("pagination_limit_reached" ∷ "content_node_limit_reached" ∷ [])
]

-- The rounds that are left of `max_pages`.
abbrev pub rounds_left : ℕ → Progress → ℕ
rounds_left max_pages p = max_pages - p.pages_seen

abbrev pub pop_parent : {W : Type 0} → List (Option ContentId) → Scan Tree W → Scan Tree W
pop_parent rest s = record s { found = record s.found { pending = rest } }

abbrev pub visit_parent :
    {W : Type 0} → Option ContentId → List (Option ContentId) → Scan Tree W → Scan Tree W
visit_parent parent rest s = record s {
  found = record s.found { pending = rest; visited = parent ∷ s.found.visited };
}

-- How a round leaves the inner loop.
abbrev pub on_parent_turn :
    {W : Type 0}
    → Turn × Scan Tree W
    → (String → Scan Tree W → Option Raised × Scan Tree W)
    → Option Raised × Scan Tree W
on_parent_turn (Turn.failed r, s) rest = (some r, s)
on_parent_turn (Turn.stopped, s) rest = (none, s)
on_parent_turn (Turn.last, s) rest = (none, s)
on_parent_turn (Turn.more c, s) rest = rest c s

module _ {W : Type 0} (list_page : PageRequest → W → Answer (Page ContentSourceRecord) × W)
    (visit : ContentSourceRecord → Scan Tree W → Flow × Scan Tree W) (page_size : ℕ) where
  -- The inner `while True`, with the rounds that `max_pages` leaves.
  unfoldable pub read_parent :
      ℕ → Option String → List (Option String) → Scan Tree W → Option Raised × Scan Tree W
  unfolding one_page
  read_parent zero cursor seen s = (none, content_page_cap s)
  read_parent (suc left) cursor seen s = elim (cursor_seen cursor seen) [
    | true ↦ (none, move cursor_cycle s)
    | false ↦
        on_parent_turn (one_page list_page visit page_size cursor s)
          (λ c. read_parent left (some c) (cursor ∷ seen))
  ]

-- How the outer loop is left: an exception, or its end; `unfinished` when the fuel is used up.
pub data Walked (W : Type 0) : Type 0 where
  unfinished : Walked W
  ended : Option Raised → Scan Tree W → Walked W

module _ {W : Type 0} where
  -- `if progress.failure_category is None`
  unfoldable pub end_walk : Scan Tree W → Walked W
  end_walk s =
      Walked.ended none (if is_none s.progress.failure_category then move finished s else s)

  abbrev pub after_parent : Option Raised × Scan Tree W → (Scan Tree W → Walked W) → Walked W
  unfolding end_walk
  after_parent (some r, s) rest = Walked.ended (some r) s
  after_parent (none, s) rest = elim (is_capped s.progress) [ true ↦ end_walk s | false ↦ rest s ]

  abbrev pub parent_visited : Option ContentId → Scan Tree W → Bool
  parent_visited parent s = any (same_parent parent) s.found.visited

  -- `while parents`, on fuel: one for each parent that it takes from the deque.
  unfoldable pub walk :
      (Option ContentId → Scan Tree W → Option Raised × Scan Tree W) → ℕ → Scan Tree W → Walked W
  unfolding after_parent
  walk read zero s = Walked.unfinished
  walk read (suc fuel) s = elim s.found.pending [
    | [] ↦ end_walk s
    | parent ∷ rest ↦ elim (parent_visited parent s) [
      | true ↦ walk read fuel (move cursor_cycle (pop_parent rest s))
      | false ↦ after_parent (read parent (visit_parent parent rest s)) (walk read fuel)
    ]
  ]

module _ {W : Type 0} (b : Backend W) where
  -- The body of the outer loop for a parent that was not visited.
  unfoldable pub read_content :
      ℕ
      → AuthorizedReadSession
      → CourseId
      → ℕ
      → ℕ
      → ℕ
      → Option ContentId
      → Scan Tree W
      → Option Raised × Scan Tree W
  unfolding read_parent visit_node
  read_content run_key session course page_size max_pages max_nodes parent s =
      read_parent (b.list_content session course parent)
        (visit_node b run_key course parent max_nodes) page_size (rounds_left max_pages s.progress)
        none [] s

  abbrev pub start_tree : W → Scan Tree W
  start_tree w = record {
    progress = no_progress;
    found = record { pending = none ∷ []; queued = []; visited = []; content = []; resources = [] };
    world = w;
  }

  -- The result of `_content`: its scope, and what it observed.
  abbrev pub content_scope : CourseId → Walked W → Option (ScopeResult × Scan Tree W)
  unfolding after_raise scope_of
  content_scope course Walked.unfinished = none
  content_scope course (Walked.ended o s) =
      let (p, w) = after_raise b o s.progress s.world in
      some (
        scope_of b "content" (some course) p w,
        record { progress = p; found = s.found; world = w },
      )

  -- `_content`; a parent is queued for a node that was counted, so that `max_nodes + 2` is fuel enough.
  unfoldable pub content_of :
      ℕ → AuthorizedReadSession → CourseId → ℕ → ℕ → ℕ → W → Option (ScopeResult × Scan Tree W)
  unfolding walk read_content content_scope
  content_of run_key session course page_size max_pages max_nodes w = content_scope course (
      walk (read_content run_key session course page_size max_pages max_nodes) (max_nodes + 2)
        (start_tree w))
