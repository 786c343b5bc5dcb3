-- ===== src/Sync/Discovery/Paging.antt =====
-- src/ntulearn_skill/sync/discovery.py: one round of a paging loop, and the loop that `_courses` and
-- `_target_course` share.
use ntulearn_skill.Prelude.{
  any, Result, err, ok, ℕ, zero, suc, ◌+◌, String, Bool, true, false, Option, none, some, List, [],
  ◌∷◌, ◌==ₛ◌,
}
use ntulearn_skill.Client.Errors.{Raised, Answer}
use ntulearn_skill.Client.Records.{PageRequest, make_page_request, Page}
use ntulearn_skill.Sync.Models.{SyncWarning}
use ntulearn_skill.Sync.Discovery.{Progress, partial, merge_page_coverage}

-- The variables of a loop: its progress, what it collects, and the world outside.
pub record Scan (X W : Type 0) : Type 0 where
  pub progress : Progress
  pub found : X
  pub world : W

-- How the visit of an item leaves the loop over the items.
pub data Flow : Type 0 where
  go stop : Flow
  throw : Raised → Flow

-- How a round leaves the loop over the pages.
pub data Turn : Type 0 where
  failed : Raised → Turn
  stopped last : Turn
  more : String → Turn

module _ {X W : Type 0} where
  abbrev pub continue_with : Flow × Scan X W → (Scan X W → Flow × Scan X W) → Flow × Scan X W
  continue_with (Flow.go, s) rest = rest s
  continue_with (Flow.stop, s) rest = (Flow.stop, s)
  continue_with (Flow.throw r, s) rest = (Flow.throw r, s)

  abbrev pub next_turn : Option String → Flow × Scan X W → Turn × Scan X W
  next_turn none (Flow.go, s) = (Turn.last, s)
  next_turn (some c) (Flow.go, s) = (Turn.more c, s)
  next_turn _ (Flow.stop, s) = (Turn.stopped, s)
  next_turn _ (Flow.throw r, s) = (Turn.failed r, s)

  abbrev pub move : (Progress → Progress) → Scan X W → Scan X W
  move f s = record s { progress = f s.progress }

abbrev pub count_page : Progress → Progress
count_page p = record p { pages_seen = p.pages_seen + 1 }

module _ {A X W : Type 0} where
  -- `for item in page.items`
  unfoldable pub visit_all : (A → Scan X W → Flow × Scan X W) → List A → Scan X W → Flow × Scan X W
  visit_all visit [] s = (Flow.go, s)
  visit_all visit (item ∷ items) s = continue_with (visit item s) (visit_all visit items)

  abbrev pub on_merged :
      (A → Scan X W → Flow × Scan X W) → Page A → Scan X W → Answer Progress → Turn × Scan X W
  unfolding visit_all
  on_merged visit page s (Answer.raised r) = (Turn.failed r, s)
  on_merged visit page s (Answer.returned p) =
      next_turn page.next_cursor (visit_all visit page.items (record s { progress = p }))

  abbrev pub on_page :
      (A → Scan X W → Flow × Scan X W) → Scan X W → Answer (Page A) × W → Turn × Scan X W
  unfolding merge_page_coverage
  on_page visit s (Answer.raised r, w) = (Turn.failed r, record s { world = w })
  on_page visit s (Answer.returned page, w) =
      let counted = move count_page (record s { world = w }) in
      on_merged visit page counted (merge_page_coverage page.coverage_for_page counted.progress)

  abbrev pub on_request :
      (PageRequest → W → Answer (Page A) × W)
      → (A → Scan X W → Flow × Scan X W)
      → Scan X W
      → Result PageRequest
      → Turn × Scan X W
  on_request list_page visit s (err raised) = (Turn.failed Raised.from_elsewhere, s)
  on_request list_page visit s (ok request) = on_page visit s (list_page request s.world)

  -- From `PageRequest` to `cursor = page.next_cursor`.
  unfoldable pub one_page :
      (PageRequest → W → Answer (Page A) × W)
      → (A → Scan X W → Flow × Scan X W)
      → ℕ
      → Option String
      → Scan X W
      → Turn × Scan X W
  unfolding make_page_request
  one_page list_page visit page_size cursor s =
      on_request list_page visit s (make_page_request cursor page_size)

-- `cursor in seen_cursors`
abbrev pub same_cursor : Option String → Option String → Bool
same_cursor none none = true
same_cursor none (some d) = false
same_cursor (some c) none = false
same_cursor (some c) (some d) = c ==ₛ d

abbrev pub cursor_seen : Option String → List (Option String) → Bool
cursor_seen cursor seen = any (same_cursor cursor) seen

abbrev pub page_cap : Progress → Progress
page_cap = partial "pagination_limit_reached" SyncWarning.page_cap_reached

abbrev pub cursor_cycle : Progress → Progress
cursor_cycle = partial "pagination_cycle" SyncWarning.pagination_cycle

abbrev pub finished : Progress → Progress
finished p = record p { pagination_complete = true }

abbrev pub on_turn :
    {X W : Type 0}
    → Turn × Scan X W
    → (String → Scan X W → Option Raised × Scan X W)
    → Option Raised × Scan X W
on_turn (Turn.failed r, s) rest = (some r, s)
on_turn (Turn.stopped, s) rest = (none, s)
on_turn (Turn.last, s) rest = (none, move finished s)
on_turn (Turn.more c, s) rest = rest c s

module _ {A X W : Type 0} (list_page : PageRequest → W → Answer (Page A) × W)
    (visit : A → Scan X W → Flow × Scan X W) (page_size : ℕ) where
  -- `while True`, with the rounds that `max_pages` leaves: every round that goes on read a page.
  unfoldable pub pages :
      ℕ → Option String → List (Option String) → Scan X W → Option Raised × Scan X W
  unfolding one_page
  pages zero cursor seen s = (none, move page_cap s)
  pages (suc left) cursor seen s = elim (cursor_seen cursor seen) [
    | true ↦ (none, move cursor_cycle s)
    | false ↦
        on_turn (one_page list_page visit page_size cursor s)
          (λ c. pages left (some c) (cursor ∷ seen))
  ]
