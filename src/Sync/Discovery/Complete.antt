-- ===== src/Sync/Discovery/Complete.antt =====
-- src/ntulearn_skill/sync/discovery.py: a source that behaves well has its courses observed completely.
use ntulearn_skill.Prelude.{
  length, append_nil, append_assoc, ok, ℕ, zero, suc, ◌+◌, ◌≤◌, String, ◌≡◌, refl, sym, ap, ◌∙◌,
  Bool, true, false, Option, none, some, List, [], ◌∷◌, ◌++◌, arith,
}
use ntulearn_skill.Core.Models.{Coverage, Instant}
use ntulearn_skill.Client.Errors.{Raised, Answer}
use ntulearn_skill.Client.Records.{
  AuthorizedReadSession, PageRequest, make_page_request, Page, CourseSourceRecord,
}
use ntulearn_skill.Sync.Discovery.{no_progress, merge_page_coverage, Backend, scope_of, after_raise}
use ntulearn_skill.Sync.Discovery.Paging.{
  Scan, Flow, Turn, next_turn, move, count_page, visit_all, on_page, one_page, cursor_seen,
  cursor_cycle, finished, on_turn, pages,
}
use ntulearn_skill.Sync.Discovery.Courses.{
  after_put, course_seen, add_course, valid_course, put_course_now, visit_course, courses_scope,
  courses_of,
}
use mathlib.Core.Path.{subst}

-- The items of the pages, in order.
abbrev pub page_items : List (Page CourseSourceRecord) → List CourseSourceRecord
page_items [] = []
page_items (p ∷ ps) = p.items ++ page_items ps

-- What is to hold without a next cursor, and with one.
abbrev pub Onward : Option String → Type 0 → (String → Type 0) → Type 0
Onward none at_end onward = at_end
Onward (some c) at_end onward = onward c

module _ {W : Type 0} (b : Backend W) where
  -- The items are valid courses, and new after those before.
  abbrev pub Acceptable : List CourseSourceRecord → List CourseSourceRecord → Type 0
  Acceptable before [] = Unit
  Acceptable before (item ∷ items) =
      (valid_course b item ≡ true)
      × (course_seen item before ≡ false)
      × Acceptable (before ++ item ∷ []) items

  -- From a cursor, the source answers with these pages one after the other, each complete: the cursors
  -- are new and in order, and the last page has none.
  abbrev pub Serves :
      AuthorizedReadSession
      → ℕ
      → List (Option String)
      → Option String
      → List CourseSourceRecord
      → List (Page CourseSourceRecord)
      → Type 0
  Serves session page_size seen cursor before [] = ⊥
  Serves session page_size seen cursor before (p ∷ ps) =
      (request : PageRequest) × (make_page_request cursor page_size ≡ ok request)
      × ((w : W) → (b.list_courses session request w).0 ≡ Answer.returned p)
      × (cursor_seen cursor seen ≡ false)
      × (p.coverage_for_page ≡ Coverage.complete)
      × Acceptable before p.items
      × Onward p.next_cursor (ps ≡ [])
          (λ c. Serves session page_size (cursor ∷ seen) (some c) (before ++ p.items) ps)

  abbrev pub Stores : Type 0
  Stores =
      (item : CourseSourceRecord) (at : Instant) (w : W)
      → (b.put_course item at w).0 ≡ Answer.returned tt

  after_put-returned :
      {X : Type 0} (rest : Scan X W → Flow × Scan X W) (s : Scan X W) (r : Answer (Unit {0}) × W)
      → r.0 ≡ Answer.returned tt
      → after_put rest s r ≡ rest (record s { world = r.1 })
  after_put-returned rest s (Answer.returned u, w) e = refl
  after_put-returned rest s (Answer.raised r, w) e = cc

  visit_course-accepted :
      (item : CourseSourceRecord) (s : Scan (List CourseSourceRecord) W)
      → Stores
      → valid_course b item ≡ true
      → course_seen item s.found ≡ false
      → visit_course b item s
        ≡ add_course item (record s { world = (put_course_now b item s.world).1 })
  unfolding visit_course
  visit_course-accepted item s k v f =
      rw (v, f)
        (after_put-returned (add_course item) s (put_course_now b item s.world)
          (k item (b.observed_at s.world) s.world))

  -- What a page adds.
  abbrev Adds :
      Scan (List CourseSourceRecord) W
      → List CourseSourceRecord
      → ℕ
      → Scan (List CourseSourceRecord) W
      → Type 0
  Adds s items rounds t =
      (t.found ≡ s.found ++ items)
      × (t.progress.coverage ≡ s.progress.coverage)
      × (t.progress.pages_seen ≡ s.progress.pages_seen + rounds)

  visit_all-accepted :
      (items : List CourseSourceRecord) (s : Scan (List CourseSourceRecord) W)
      → Stores
      → Acceptable s.found items
      → (t : Scan (List CourseSourceRecord) W) × (visit_all (visit_course b) items s ≡ (Flow.go, t))
        × Adds s items 0 t
  unfolding visit_all
  visit_all-accepted [] s k a = (s, refl, (sym (append_nil s.found), refl, omega arith))
  visit_all-accepted (item ∷ items) s k (v, f, a) =
      let next : Scan (List CourseSourceRecord) W =
        (add_course item (record s { world = (put_course_now b item s.world).1 })).1 in
      let (t, e, (g, c, n)) = visit_all-accepted items next k a in
      (
        t,
        rw (visit_course-accepted item s k v f) e,
        (g ∙ append_assoc s.found (item ∷ []) items, c, n),
      )

  abbrev read_page :
      Page CourseSourceRecord
      → Scan (List CourseSourceRecord) W
      → W
      → Turn × Scan (List CourseSourceRecord) W
  unfolding visit_course visit_all
  read_page p s w =
      next_turn p.next_cursor
        (visit_all (visit_course b) p.items (move count_page (record s { world = w })))

  on_page-returned :
      (p : Page CourseSourceRecord) (s : Scan (List CourseSourceRecord) W)
      (r : Answer (Page CourseSourceRecord) × W)
      → r.0 ≡ Answer.returned p
      → p.coverage_for_page ≡ Coverage.complete
      → on_page (visit_course b) s r ≡ read_page p s r.1
  unfolding merge_page_coverage visit_all read_page
  on_page-returned p s (Answer.raised e, w) h c = cc
  on_page-returned p s (Answer.returned q, w) h c =
      let same : q ≡ p = cc in
      subst (λ q. on_page (visit_course b) s (Answer.returned q, w) ≡ read_page p s w) (sym same)
        (rw c refl)

  one_page-served :
      (session : AuthorizedReadSession) (page_size : ℕ) (cursor : Option String)
      (request : PageRequest) (p : Page CourseSourceRecord) (s : Scan (List CourseSourceRecord) W)
      → Stores
      → make_page_request cursor page_size ≡ ok request
      → ((w : W) → (b.list_courses session request w).0 ≡ Answer.returned p)
      → p.coverage_for_page ≡ Coverage.complete
      → Acceptable s.found p.items
      → (t : Scan (List CourseSourceRecord) W) × (one_page
            (b.list_courses session)
            (visit_course b)
            page_size
            cursor
            s
          ≡ next_turn p.next_cursor (Flow.go, t))
        × Adds s p.items 1 t
  unfolding one_page read_page
  one_page-served session page_size cursor request p s k m l c a =
      let w = (b.list_courses session request s.world).1 in
      let (t, e, (f, d, n)) =
        visit_all-accepted p.items (move count_page (record s { world = w })) k a in
      (
        t,
        rw (m, on_page-returned p s (b.list_courses session request s.world) (l s.world) c)
            (ap (next_turn p.next_cursor) e),
        (f, d, omega (arith, n)),
      )

  pages-served :
      (session : AuthorizedReadSession) (page_size left : ℕ) (seen : List (Option String))
      (cursor : Option String) (served : List (Page CourseSourceRecord))
      (s : Scan (List CourseSourceRecord) W)
      → Stores
      → length served ≤ left
      → Serves session page_size seen cursor s.found served
      → (t : Scan (List CourseSourceRecord) W) × (pages
            (b.list_courses session)
            (visit_course b)
            page_size
            left
            cursor
            seen
            s
          ≡ (none, t))
        × Adds s (page_items served) (length served) t
  unfolding pages
  pages-served session page_size left seen cursor [] s k n v = elim v [ ]
  pages-served session page_size zero seen cursor (p ∷ ps) s k n v =
      let too_many : ⊥ = omega (arith, n) in elim too_many [ ]
  pages-served session page_size (suc left) seen cursor (p ∷ ps) s k n
        (request, m, l, f, c, a, more) =
      let (t, e, d) = one_page-served session page_size cursor request p s k m l c a in
      let (u, h, d') = continued p.next_cursor t e d more (λ c u.
        pages-served session page_size left (cursor ∷ seen) (some c) ps u k (omega (arith, n))) in
      (u, fresh (cursor_seen cursor seen) _ f ∙ h, d')
    where
      fresh :
          (c : Bool) (r : Option Raised × Scan (List CourseSourceRecord) W)
          → c ≡ false
          → elim c [ true ↦ (none, move cursor_cycle s) | false ↦ r ] ≡ r
      fresh true r e = cc
      fresh false r e = refl

      continued :
          (next : Option String) (t : Scan (List CourseSourceRecord) W)
          → one_page (b.list_courses session) (visit_course b) page_size cursor s
            ≡ next_turn next (Flow.go, t)
          → Adds s p.items 1 t
          → Onward next
              (ps ≡ [])
              (λ c. Serves session page_size (cursor ∷ seen) (some c) (s.found ++ p.items) ps)
          → ((c : String) (u : Scan (List CourseSourceRecord) W)
              → Serves session page_size (cursor ∷ seen) (some c) u.found ps
              → (v : Scan (List CourseSourceRecord) W) × (pages
                    (b.list_courses session)
                    (visit_course b)
                    page_size
                    left
                    (some c)
                    (cursor ∷ seen)
                    u
                  ≡ (none, v))
                × Adds u (page_items ps) (length ps) v)
          → (u : Scan (List CourseSourceRecord) W) × (on_turn
                (one_page (b.list_courses session) (visit_course b) page_size cursor s)
                (λ c.
                  pages
                    (b.list_courses session)
                    (visit_course b)
                    page_size
                    left
                    (some c)
                    (cursor ∷ seen))
              ≡ (none, u))
            × Adds s (p.items ++ page_items ps) (suc (length ps)) u
      continued none t e (g, c, n) more rest = (
        move finished t,
        rw e refl,
        (
          subst (λ l. t.found ≡ s.found ++ (p.items ++ page_items l)) (sym more)
              (g ∙ ap (λ l. s.found ++ l) (sym (append_nil p.items))),
          c,
          subst (λ l. t.progress.pages_seen ≡ s.progress.pages_seen + suc (length l)) (sym more)
              (omega (arith, n)),
        ),
      )
      continued (some c) t e (g, d, n) more rest =
          let (v, h, (f, q, m)) =
            rest c t
              (subst (λ l. Serves session page_size (cursor ∷ seen) (some c) l ps) (sym g) more) in
          (
            v,
            rw e h,
            (
              f ∙ ap (λ l. l ++ page_items ps) g ∙ append_assoc s.found p.items (page_items ps),
              q ∙ d,
              omega (arith, m, n),
            ),
          )

  -- If the source answers with pages that are complete, whose cursors are new and end, and whose items
  -- are valid courses with different identities, if every course can be stored, and if `max_pages` is at
  -- least the number of the pages, then `_courses` returns exactly the items of the pages in order, with
  -- complete coverage, and it reads each page once.
  pub courses-complete :
      (session : AuthorizedReadSession) (page_size max_pages : ℕ)
      (served : List (Page CourseSourceRecord)) (w : W)
      → Stores
      → length served ≤ max_pages
      → Serves session page_size [] none [] served
      → let (cs, scope, w') = courses_of b session page_size max_pages w in
        (cs ≡ page_items served)
        × (scope.coverage ≡ Coverage.complete)
        × (scope.pages_seen ≡ length served)
  unfolding courses_of scope_of after_raise courses_scope
  courses-complete session page_size max_pages served w k n v =
      let (t, e, (f, c, m)) =
        pages-served session page_size max_pages [] none served
          (record { progress = no_progress; found = []; world = w }) k n v in
      rw e (f, c, omega (arith, m))
