-- ===== src/Sync/Discovery/Entries.antt =====
-- src/ntulearn_skill/sync/discovery.py: the scopes that `DiscoverySync.run` observes and counts.
use ntulearn_skill.Prelude.{
  Bool-cases, append_nil, append_assoc, Error, Result, ◌>>=◌, ℕ, ◌+◌, String, ◌≡◌, refl, sym, ap,
  ◌∙◌, ◌⊎◌, inl, inr, Bool, true, false, some, List, [], ◌∷◌, ◌++◌, arith,
}
use ntulearn_skill.Core.Models.{is_complete}
use ntulearn_skill.Core.Identifiers.{CourseId}
use ntulearn_skill.Client.Contracts.{SourceCapability, CapabilityState}
use ntulearn_skill.Client.Errors.{category_of, safe_source_error_category, Answer}
use ntulearn_skill.Client.Records.{ReadPurpose, AuthorizedReadSession, CourseSourceRecord}
use ntulearn_skill.Sync.Models.{ScopeResult}
use ntulearn_skill.Sync.Discovery.{
  Backend, is_supported, as_source_error, failed_scope, unsupported_scope, invalidate_if_expired,
}
use ntulearn_skill.Sync.Discovery.Paging.{Scan}
use ntulearn_skill.Sync.Discovery.Content.{Tree}
use ntulearn_skill.Sync.Discovery.Walk.{content_of}
use ntulearn_skill.Sync.Discovery.Run.{
  Recorder, Bounds, RunState, note_scope, note_each, note_content, content_each, content_with,
  content_if_supported, observe_content, observe_run,
}
use ntulearn_skill.Sync.Discovery.Ending.{content_of-returns}
use ntulearn_skill.Sync.Discovery.Summary.{IsSound, failed_scope-IsSound, unsupported_scope-IsSound}
use ntulearn_skill.Sync.Discovery.Outcomes.{Outcome, >>=-Outcome, Outcome-imp}

-- A scope of the content of a course, and the number of resources that were seen for it.
abbrev pub Entry : Type 0
Entry = ScopeResult × ℕ

abbrev pub scopes_of : List Entry → List ScopeResult
scopes_of [] = []
scopes_of ((scope, n) ∷ entries) = scope ∷ scopes_of entries

abbrev pub content_sum : List Entry → ℕ
content_sum [] = 0
content_sum ((scope, n) ∷ entries) = scope.items_seen + content_sum entries

abbrev pub resource_sum : List Entry → ℕ
resource_sum [] = 0
resource_sum ((scope, n) ∷ entries) = n + resource_sum entries

-- The courses whose content is observed.
abbrev pub with_content : Bool → List CourseSourceRecord → List CourseSourceRecord
with_content false courses = []
with_content true courses = courses

module _ {W : Type 0} (b : Backend W) (recorder : Recorder W) (key : ℕ) (bounds : Bounds) where
  -- The scope and the number of resources are those of `_content`, or the scope is one of a course
  -- that was not observed: with no item, no resource, and not complete.
  abbrev pub IsSeen : CourseId → Entry → Type 0
  IsSeen course (scope, n) =
      ((session : AuthorizedReadSession) × (w : W) × (s : Scan Tree W) × (content_of b key session
            course bounds.page_size bounds.max_pages bounds.max_nodes w
          ≡ some (scope, s))
        × (n ≡ s.progress.resources_seen))
      ⊎ ((scope.items_seen ≡ 0) × (n ≡ 0) × (is_complete scope.coverage ≡ false))

  abbrev pub IsEntry : CourseId → Entry → Type 0
  IsEntry course (scope, n) =
      (scope.course_id ≡ some course)
      × (scope.data_kind ≡ "content")
      × IsSound bounds.max_pages scope
      × IsSeen course (scope, n)

  -- One entry for each course, in order.
  abbrev pub Matches : List CourseSourceRecord → List Entry → Type 0
  Matches [] [] = Unit
  Matches [] (e ∷ entries) = ⊥
  Matches (c ∷ cs) [] = ⊥
  Matches (c ∷ cs) (e ∷ entries) = IsEntry c.remote_id e × Matches cs entries

  -- The later state has one scope more, and its counts.
  abbrev Plus : Entry → RunState W → RunState W → Type 0
  Plus (scope, n) st after =
      (after.scopes ≡ st.scopes ++ scope ∷ [])
      × (after.content_observed ≡ st.content_observed + scope.items_seen)
      × (after.resources_discovered ≡ st.resources_discovered + n)

  -- The later state has the scopes of these courses more, and their counts.
  abbrev pub Added : List CourseSourceRecord → RunState W → RunState W → Type 0
  Added cs st after =
      (entries : List Entry) × (after.scopes ≡ st.scopes ++ scopes_of entries)
      × (after.content_observed ≡ st.content_observed + content_sum entries)
      × (after.resources_discovered ≡ st.resources_discovered + resource_sum entries)
      × Matches cs entries

  Added-none : (st : RunState W) → Added [] st st
  Added-none st = ([], sym (append_nil st.scopes), omega arith, omega arith, tt)

  Added-cons :
      (c : CourseSourceRecord) (cs : List CourseSourceRecord) (e : Entry)
      (st mid after : RunState W)
      → IsEntry c.remote_id e
      → Plus e st mid
      → Added cs mid after
      → Added (c ∷ cs) st after
  Added-cons c cs (scope, n) st mid after p (s, o, r) (entries, s', o', r', m) = (
    (scope, n) ∷ entries,
    s'
        ∙ ap (λ l. l ++ scopes_of entries) s
        ∙ append_assoc st.scopes (scope ∷ []) (scopes_of entries),
    omega (arith, o, o'),
    omega (arith, r, r'),
    (p, m),
  )

  module _ (F : Error → Type 0)
      (records : (key : ℕ) (scope : ScopeResult) (w : W)
        → Outcome F (λ w'. Unit {0}) (recorder.record_scope key scope w)) where
    -- The scope is appended, the counts stay.
    abbrev Appended : ScopeResult → RunState W → RunState W → Type 0
    Appended scope st after =
        (after.scopes ≡ st.scopes ++ scope ∷ [])
        × (after.content_observed ≡ st.content_observed)
        × (after.resources_discovered ≡ st.resources_discovered)

    pub note_scope-Appended :
        (scope : ScopeResult) (st : RunState W)
        → Outcome F (Appended scope st) (note_scope b recorder key scope st)
    note_scope-Appended scope st =
        >>=-Outcome F (λ w. Unit {0}) (Appended scope st) (recorder.record_scope key scope st.world)
          _ (records key scope st.world) (λ w u. (refl, refl, refl))

    -- One step of a loop over the courses.
    step-Added :
        (c : CourseSourceRecord) (cs : List CourseSourceRecord) (e : Entry) (st : RunState W)
        (first : Result (RunState W)) (rest : RunState W → Result (RunState W))
        → IsEntry c.remote_id e
        → Outcome F (Plus e st) first
        → ((mid : RunState W) → Outcome F (Added cs mid) (rest mid))
        → Outcome F (Added (c ∷ cs) st) (first >>= rest)
    step-Added c cs e st first rest p f k =
        >>=-Outcome F (Plus e st) (Added (c ∷ cs) st) first rest f (λ mid q.
          Outcome-imp F (Added cs mid) (Added (c ∷ cs) st) (rest mid)
            (λ after a. Added-cons c cs e st mid after p q a) (k mid))

    -- A scope of a course that was not observed.
    IsBlank : CourseId → ScopeResult → Type 0
    IsBlank course scope = IsEntry course (scope, 0) × (scope.items_seen ≡ 0)

    note_each-Added :
        (scope : CourseId → W → ScopeResult) (cs : List CourseSourceRecord) (st : RunState W)
        → ((course : CourseId) (w : W) → IsBlank course (scope course w))
        → Outcome F (Added cs st) (note_each b recorder scope key cs st)
    unfolding note_each IsBlank
    note_each-Added scope [] st h = Added-none st
    note_each-Added scope (c ∷ cs) st h =
        let made = scope c.remote_id st.world in
        step-Added c cs (made, 0) st (note_scope b recorder key made st) _
          (h c.remote_id st.world).0
          (Outcome-imp F (Appended made st) (Plus (made, 0) st) _
            (λ after (s, o, r). (s, omega (arith, o, (h c.remote_id st.world).1), omega (arith, r)))
            (note_scope-Appended made st))
          (λ mid. note_each-Added scope cs mid h)

    content_each-Added :
        (session : AuthorizedReadSession) (cs : List CourseSourceRecord) (st : RunState W)
        → Outcome F (Added cs st) (content_each b recorder key session bounds cs st)
    unfolding content_each
    content_each-Added session [] st = Added-none st
    content_each-Added session (c ∷ cs) st =
        let (scope, s, e, o, m, t, l) =
          content_of-returns b key session c.remote_id bounds.page_size bounds.max_pages
            bounds.max_nodes st.world in
        rw e (
          step-Added c cs (scope, s.progress.resources_seen) st
            (note_content b recorder key st (some (scope, s))) _
            (l.1, l.2, (m, t), inl (session, st.world, s, e, refl))
            (>>=-Outcome F (Appended scope (record st { world = s.world }))
              (Plus (scope, s.progress.resources_seen) st)
              (note_scope b recorder key scope (record st { world = s.world })) _
              (note_scope-Appended scope (record st { world = s.world }))
              (λ after (q, x, y).
                (q, ap (λ z. z + scope.items_seen) x, ap (λ z. z + s.progress.resources_seen) y)))
            (λ mid. content_each-Added session cs mid))

    failed-IsBlank :
        (category : String) (course : CourseId) (w : W)
        → IsBlank course (failed_scope b "content" (some course) category w)
    unfolding IsBlank failed_scope
    failed-IsBlank category course w = (
      (
        refl,
        refl,
        failed_scope-IsSound b "content" (some course) category w bounds.max_pages,
        inr (refl, refl, refl),
      ),
      refl,
    )

    unsupported-IsBlank :
        (course : CourseId) (w : W) → IsBlank course (unsupported_scope b "content" (some course) w)
    unfolding IsBlank unsupported_scope
    unsupported-IsBlank course w = (
      (
        refl,
        refl,
        unsupported_scope-IsSound b "content" (some course) w bounds.max_pages,
        inr (refl, refl, refl),
      ),
      refl,
    )

    content_with-Added :
        (cs : List CourseSourceRecord) (st : RunState W) (a : Answer AuthorizedReadSession × W)
        → Outcome F (Added cs st) (content_with b recorder key bounds cs st a)
    unfolding content_with
    content_with-Added cs st (Answer.returned session, w) =
        content_each-Added session cs (record st { world = w })
    content_with-Added cs st (Answer.raised r, w) =
        note_each-Added _ cs (record st { world = invalidate_if_expired b (as_source_error r) w })
          (failed-IsBlank (safe_source_error_category (category_of (as_source_error r))))

    content_if_supported-Added :
        (cs : List CourseSourceRecord) (st : RunState W) (a : Answer CapabilityState × W)
        → Outcome F (Added cs st) (content_if_supported b recorder key bounds cs st a)
    unfolding content_if_supported
    content_if_supported-Added cs st (state, w) = elim (Bool-cases (is_supported state)) [
      | inl e ↦
          rw (e, content_if_supported)
            (content_with-Added cs (record st { world = w }) (b.acquire ReadPurpose.content w))
      | inr e ↦
          rw (e, content_if_supported)
            (note_each-Added _ cs (record st { world = w }) unsupported-IsBlank)
    ]

    observe_content-Added :
        (include_content : Bool) (cs : List CourseSourceRecord) (st : RunState W)
        → Outcome F
            (Added (with_content include_content cs) st)
            (observe_content b recorder include_content key bounds cs st)
    unfolding observe_content
    observe_content-Added false cs st = Added-none st
    observe_content-Added true [] st = Added-none st
    observe_content-Added true (c ∷ cs) st =
        content_if_supported-Added (c ∷ cs) st (b.capability SourceCapability.content_tree st.world)

    -- The scopes are the course scope and those of the entries, and the counts are their sums.
    abbrev pub Summed : List CourseSourceRecord → ScopeResult → RunState W → Type 0
    Summed cs first st =
        (entries : List Entry) × (st.scopes ≡ first ∷ scopes_of entries)
        × (st.content_observed ≡ content_sum entries)
        × (st.resources_discovered ≡ resource_sum entries)
        × Matches cs entries

    pub observe_run-Summed :
        (include_content : Bool) (cs : List CourseSourceRecord) (first : ScopeResult) (w : W)
        → Outcome F
            (Summed (with_content include_content cs) first)
            (observe_run b recorder include_content key bounds (cs, first, w))
    unfolding observe_run
    observe_run-Summed include_content cs first w =
        >>=-Outcome F (Appended first empty) (Summed (with_content include_content cs) first)
          (note_scope b recorder key first empty) _ (note_scope-Appended first empty)
          (λ st (s, o, r).
            Outcome-imp F (Added (with_content include_content cs) st)
              (Summed (with_content include_content cs) first) _
              (λ after (entries, s', o', r', m). (
                entries,
                s' ∙ ap (λ l. l ++ scopes_of entries) s,
                omega (arith, o, o'),
                omega (arith, r, r'),
                m,
              ))
              (observe_content-Added include_content cs st))
      where
        empty : RunState W
        empty = record { scopes = []; content_observed = 0; resources_discovered = 0; world = w }
