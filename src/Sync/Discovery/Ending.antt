-- ===== src/Sync/Discovery/Ending.antt =====
-- src/ntulearn_skill/sync/discovery.py: that the loops of `_content` end, and what it reports.
use ntulearn_skill.Prelude.{
  is_none, Bool-cases, length, All, ℕ, zero, suc, ◌+◌, ◌-◌, ◌≤◌, ◌<◌, ◌≡◌, refl, sym, inl, inr,
  Bool, true, false, Option, none, some, List, [], ◌∷◌, arith,
}
use ntulearn_skill.Core.Identifiers.{CourseId, ContentId}
use ntulearn_skill.Client.Errors.{Raised}
use ntulearn_skill.Client.Records.{AuthorizedReadSession}
use ntulearn_skill.Sync.Models.{ScopeResult}
use ntulearn_skill.Sync.Discovery.{Backend, scope_of, after_raise}
use ntulearn_skill.Sync.Discovery.Paging.{Scan, move, cursor_cycle}
use ntulearn_skill.Sync.Discovery.Kept.{Comparable, no_progress-Healthy, partial-Healthy}
use ntulearn_skill.Sync.Discovery.Rounds.{Kept}
use ntulearn_skill.Sync.Discovery.Content.{Tree, valid_content, visit_node}
use ntulearn_skill.Sync.Discovery.Walk.{
  is_capped, rounds_left, pop_parent, visit_parent, Walked, end_walk, after_parent, parent_visited,
  walk, read_content, start_tree, content_scope, content_of,
}
use ntulearn_skill.Sync.Discovery.Tree.{TreeObserved, ReadObserved}
use ntulearn_skill.Sync.Discovery.Known.{content_ids, Known, Forest}
use mathlib.Core.Path.{subst}
use ntulearn_skill.Sync.Discovery.Forest.{
  Counted, ReadObserved-tree, ParentRead, read_parent-ParentRead,
}
use ntulearn_skill.Sync.Discovery.Nodes.{visit_node-Visited}
use ntulearn_skill.Sync.Discovery.Observed.{Trusted, scope_of-Trusted, after_raise-Trusted}
use ntulearn_skill.Sync.Lifecycle.Checks.{unique}

module _ {W : Type 0} (course : CourseId) (max_nodes : ℕ) where
  -- What the walk leaves when it ends.
  WalkEnded : ℕ → Walked W → Type 0
  WalkEnded max_pages Walked.unfinished = ⊥
  WalkEnded max_pages (Walked.ended o t) =
      ((allowance : ℕ) × Kept (TreeObserved course max_nodes 0 allowance) t)
      × (t.progress.pages_seen ≤ max_pages)
      × (o ≡ none → Comparable t.progress)

  end_walk-WalkEnded :
      (max_pages allowance : ℕ) (s : Scan Tree W)
      → Kept (TreeObserved course max_nodes 0 allowance) s
      → s.progress.pages_seen ≤ max_pages
      → Counted s.progress
      → WalkEnded max_pages (end_walk s)
  unfolding end_walk WalkEnded
  end_walk-WalkEnded max_pages allowance s (h, k) n c =
      elim (Bool-cases (is_none s.progress.failure_category)) [
        | inl e ↦
            rw (e, end_walk) ((allowance, (h, k)), n, λ o d. let (f, w) = h d in (refl, f, w, c d))
        | inr e ↦ rw (e, end_walk) ((allowance, (h, k)), n, λ o d. absurd e (h d))
      ]
    where
      absurd :
          is_none s.progress.failure_category ≡ false
          → (s.progress.failure_category ≡ none) × (s.progress.warnings ≡ [])
          → (s.progress.pagination_complete ≡ true)
            × (s.progress.failure_category ≡ none)
            × (s.progress.warnings ≡ [])
            × (0 < s.progress.pages_seen)
      absurd e (f, w) = cc

  -- A parent is taken from the deque.
  popped :
      (allowance : ℕ) (s : Scan Tree W) (parent : Option ContentId) (rest : List (Option ContentId))
      → s.found.pending ≡ parent ∷ rest
      → TreeObserved course max_nodes 0 allowance s.progress.items_seen s.progress.resources_seen
          s.found
      → (visited : List (Option ContentId))
      → (1 ≤ allowance)
        × ReadObserved course max_nodes parent 0
            (allowance - 1)
            s.progress.items_seen
            s.progress.resources_seen
            (record s.found { pending = rest; visited = visited })
  unfolding TreeObserved ReadObserved
  popped allowance s parent rest e (n, r, m, u, f, v, p, a) visited =
      let (k, p') = subst (All (Known s.found.content)) e p in
      let a' = subst (λ l. length l + 0 + max_nodes ≤ s.progress.items_seen + allowance) e a in
      (omega (arith, a', m), ((n, r, m, u, f, v, p', omega (arith, a')), k))

  abbrev ParentDone : ℕ → Option ContentId → ℕ → Option Raised × Scan Tree W → Type 0
  ParentDone max_pages parent allowance (o, t) =
      Kept (ReadObserved course max_nodes parent 0 allowance) t
      × (t.progress.pages_seen ≤ max_pages)
      × (o ≡ none → Counted t.progress)

  walk-WalkEnded :
      (max_pages : ℕ) (read : Option ContentId → Scan Tree W → Option Raised × Scan Tree W)
      → ((parent : Option ContentId) (allowance : ℕ) (s : Scan Tree W)
          → Kept (ReadObserved course max_nodes parent 0 allowance) s
          → s.progress.pages_seen ≤ max_pages
          → ParentDone max_pages parent allowance (read parent s))
      → (fuel allowance : ℕ) (s : Scan Tree W) → Kept (TreeObserved course max_nodes 0 allowance) s
      → s.progress.pages_seen ≤ max_pages
      → allowance < fuel
      → (s.found.pending ≡ [] → Counted s.progress)
      → WalkEnded max_pages (walk read fuel s)
  unfolding walk WalkEnded
  walk-WalkEnded max_pages read done zero allowance s k n f c = omega (arith, f)
  walk-WalkEnded max_pages read done (suc fuel) allowance s (h, k) n f c =
      next s.found.pending refl (walk-WalkEnded max_pages read done fuel (allowance - 1))
    where
      Rest : Type 0
      Rest =
          (t : Scan Tree W)
          → Kept (TreeObserved course max_nodes 0 (allowance - 1)) t
          → t.progress.pages_seen ≤ max_pages
          → allowance - 1 < fuel
          → (t.found.pending ≡ [] → Counted t.progress)
          → WalkEnded max_pages (walk read fuel t)

      resumed :
          (parent : Option ContentId) (r : Option Raised × Scan Tree W)
          → ParentDone max_pages parent (allowance - 1) r
          → allowance - 1 < fuel
          → Rest
          → WalkEnded max_pages (after_parent r (walk read fuel))
      resumed parent (some r, t) ((h, k), n, d) f rest = (
        (
          allowance - 1,
          (
            h,
            ReadObserved-tree course max_nodes parent (allowance - 1) t.progress.items_seen
                t.progress.resources_seen t.found k,
          ),
        ),
        n,
        λ e. cc,
      )
      resumed parent (none, t) ((h, k), n, d) f rest = capped (is_capped t.progress)
        where
          kept : Kept (TreeObserved course max_nodes 0 (allowance - 1)) t
          kept = (
            h,
            ReadObserved-tree course max_nodes parent (allowance - 1) t.progress.items_seen
                t.progress.resources_seen t.found k,
          )

          capped :
              (b : Bool)
              → WalkEnded max_pages (elim b [ true ↦ end_walk t | false ↦ walk read fuel t ])
          capped true = end_walk-WalkEnded max_pages (allowance - 1) t kept n (d refl)
          capped false = rest t kept n f (λ e. d refl)

      taken :
          (parent : Option ContentId) (rest : List (Option ContentId)) (b : Bool)
          → s.found.pending ≡ parent ∷ rest
          → Rest
          → WalkEnded max_pages (elim b [
            | true ↦ walk read fuel (move cursor_cycle (pop_parent rest s))
            | false ↦ after_parent (read parent (visit_parent parent rest s)) (walk read fuel)
          ])
      taken parent rest true e go_on =
          let (a, k') = popped allowance s parent rest e k s.found.visited in
          go_on (move cursor_cycle (pop_parent rest s))
            (
              partial-Healthy _ _ s.progress,
              ReadObserved-tree course max_nodes parent (allowance - 1) s.progress.items_seen
                  s.progress.resources_seen (pop_parent rest s).found k',
            )
            n (omega (arith, a, f)) (λ e d. cc)
      taken parent rest false e go_on =
          let (a, k') = popped allowance s parent rest e k (parent ∷ s.found.visited) in
          resumed parent (read parent (visit_parent parent rest s))
            (done parent (allowance - 1) (visit_parent parent rest s) (h, k') n)
            (omega (arith, a, f)) go_on

      next :
          (pending : List (Option ContentId))
          → s.found.pending ≡ pending
          → Rest
          → WalkEnded max_pages (elim pending [
            | [] ↦ end_walk s
            | parent ∷ rest ↦ elim (parent_visited parent s) [
              | true ↦ walk read fuel (move cursor_cycle (pop_parent rest s))
              | false ↦ after_parent (read parent (visit_parent parent rest s)) (walk read fuel)
            ]
          ])
      next [] e rest = end_walk-WalkEnded max_pages allowance s (h, k) n (c e)
      next (parent ∷ rest) e go_on = taken parent rest (parent_visited parent s) e go_on

-- What a scope of the kind `content` counts, and what was observed for it.
abbrev pub ContentObserved : CourseId → ℕ → ℕ → ℕ → Tree → Type 0
ContentObserved course max_nodes items resources t =
    (items ≡ length t.content)
    × (resources ≡ length t.resources)
    × (items ≤ max_nodes)
    × (unique (content_ids t.content) ≡ true)
    × Forest [] t.content
    × All (λ c. valid_content course c.parent_id c ≡ true) t.content

TreeObserved-content :
    (course : CourseId) (max_nodes slack allowance items resources : ℕ) (t : Tree)
    → TreeObserved course max_nodes slack allowance items resources t
    → ContentObserved course max_nodes items resources t
unfolding TreeObserved
TreeObserved-content course max_nodes slack allowance items resources t (n, r, m, u, f, v, p, a) =
    (n, r, m, u, f, v)

module _ {W : Type 0} (b : Backend W) where
  read_content-ParentDone :
      (run_key : ℕ) (session : AuthorizedReadSession) (course : CourseId)
      (page_size max_pages max_nodes : ℕ) (parent : Option ContentId) (allowance : ℕ)
      (s : Scan Tree W)
      → Kept (ReadObserved course max_nodes parent 0 allowance) s
      → s.progress.pages_seen ≤ max_pages
      → ParentDone course max_nodes max_pages parent allowance
          (read_content b run_key session course page_size max_pages max_nodes parent s)
  unfolding read_content ParentRead
  read_content-ParentDone run_key session course page_size max_pages max_nodes parent allowance s k
        n =
      let (k', m, d) =
        read_parent-ParentRead course max_nodes parent allowance
          (b.list_content session course parent) (visit_node b run_key course parent max_nodes)
          (visit_node-Visited course max_nodes b parent allowance run_key) page_size
          (rounds_left max_pages s.progress) none [] s k in
      (k', omega (arith, m, n), d)

  start_tree-observed :
      (course : CourseId) (max_nodes : ℕ) (w : W)
      → Kept (TreeObserved course max_nodes 0 (max_nodes + 1)) (start_tree b w)
  unfolding TreeObserved
  start_tree-observed course max_nodes w =
      (no_progress-Healthy, (refl, refl, omega arith, refl, tt, tt, (tt, tt), omega arith))

  abbrev pub Labelled : CourseId → ScopeResult → Type 0
  Labelled course scope =
      (scope.provider ≡ b.provider_name)
      × (scope.course_id ≡ some course)
      × (scope.data_kind ≡ "content")

  pub content_of-returns :
      (run_key : ℕ) (session : AuthorizedReadSession) (course : CourseId)
      (page_size max_pages max_nodes : ℕ) (w : W)
      → (scope : ScopeResult) × (s : Scan Tree W) × (content_of b run_key session course page_size
            max_pages max_nodes w
          ≡ some (scope, s))
        × ContentObserved course max_nodes scope.items_seen s.progress.resources_seen s.found
        × (scope.pages_seen ≤ max_pages)
        × Trusted scope
        × Labelled course scope
  unfolding content_of scope_of WalkEnded
  content_of-returns run_key session course page_size max_pages max_nodes w =
      reported
        (walk (read_content b run_key session course page_size max_pages max_nodes) (max_nodes + 2)
          (start_tree b w))
        (walk-WalkEnded course max_nodes max_pages
          (read_content b run_key session course page_size max_pages max_nodes)
          (read_content-ParentDone run_key session course page_size max_pages max_nodes)
          (max_nodes + 2) (max_nodes + 1) (start_tree b w) (start_tree-observed course max_nodes w)
          (omega arith) (omega arith) (λ e. cc))
    where
      reported :
          (r : Walked W)
          → WalkEnded course max_nodes max_pages r
          → (scope : ScopeResult) × (s : Scan Tree W) × (content_scope b course r ≡ some (scope, s))
            × ContentObserved course max_nodes scope.items_seen s.progress.resources_seen s.found
            × (scope.pages_seen ≤ max_pages)
            × Trusted scope
            × Labelled course scope
      reported (Walked.ended o s) ((allowance, (h, k)), n, d) =
          let (t, e, f, g) = after_raise-Trusted b o s.progress s.world d in
          let (p, w) = after_raise b o s.progress s.world in
          (
            scope_of b "content" (some course) p w,
            record { progress = p; found = s.found; world = w },
            refl,
            subst (λ r. ContentObserved course max_nodes p.items_seen r s.found) (sym g)
                (subst (λ i. ContentObserved course max_nodes i s.progress.resources_seen s.found)
                  (sym f)
                  (TreeObserved-content course max_nodes 0 allowance s.progress.items_seen
                    s.progress.resources_seen s.found k)),
            omega (arith, n, e),
            scope_of-Trusted b "content" (some course) p w t,
            (refl, refl, refl),
          )
      reported Walked.unfinished d = elim d [ ]
