-- ===== src/Sync/Discovery/Nodes.antt =====
-- src/ntulearn_skill/sync/discovery.py: what the visit of a content node keeps of the tree.
use ntulearn_skill.Prelude.{
  leb, Bool-cases, length-append, any-append, Result, err, ok, ℕ, ◌+◌, ◌≡◌, refl, sym, ◌∙◌, inl,
  inr, true, false, ◌&&◌, Option, some, [], ◌∷◌, ◌++◌, arith,
}
use ntulearn_skill.Core.Models.{Availability, Instant}
use ntulearn_skill.Core.Identifiers.{CourseId, ContentId, same_id, same_id_iff}
use ntulearn_skill.Client.Errors.{Answer}
use ntulearn_skill.Client.Records.{ResourceMetadataRecord, ContentSourceRecord}
use ntulearn_skill.Sync.Discovery.{Backend}
use ntulearn_skill.Sync.Discovery.Paging.{Scan, Flow, continue_with, visit_all}
use ntulearn_skill.Sync.Discovery.Kept.{partial-Healthy}
use ntulearn_skill.Sync.Discovery.Rounds.{Kept, Visited}
use ntulearn_skill.Sync.Discovery.Courses.{after_put}
use ntulearn_skill.Sync.Discovery.Content.{
  Tree, valid_content, node_seen, storage_time, node_cap, add_resource, add_node, enqueue_node,
  observe_at, visit_resource, keep_node, visit_node,
}
use ntulearn_skill.Sync.Discovery.Rounds.{visit_all-Visited}
use mathlib.Core.Path.{subst}
use ntulearn_skill.Sync.Discovery.Known.{Known}
use ntulearn_skill.Sync.Discovery.Tree.{
  Beside-ReadObserved, add_node-ReadObserved, ReadObserved-slack, ReadObserved-resources,
  enqueue-ReadObserved, TreeObserved, ReadObserved, Beside,
}

module _ (course : CourseId) (max_nodes : ℕ) where
  module _ {W : Type 0} (b : Backend W) where
    visit_resource-Visited :
        (count : ℕ) (tree : Tree) (run_key : ℕ) (availability : Availability)
        (r : ResourceMetadataRecord) (s : Scan Tree W)
        → Kept (Beside course max_nodes count tree) s
        → Visited (Beside course max_nodes count tree) s (visit_resource b run_key availability r s)
    unfolding visit_resource Beside
    visit_resource-Visited count tree run_key availability r s (h, k) =
        observed (storage_time r.candidate_modified_at)
      where
        put :
            (a : Answer (Unit {0}) × W)
            → Visited (Beside course max_nodes count tree) s (after_put (add_resource r) s a)
        put (Answer.raised e, w) = ((h, k), refl)
        put (Answer.returned u, w) =
            let (i, n, c, q) = k in
            ((h, (i, omega (arith, n, length-append s.found.resources (r ∷ [])), c, q)), refl)

        observed :
            (o : Result (Option Instant))
            → Visited
                (Beside course max_nodes count tree)
                s
                (observe_at b run_key availability r s o)
        observed (err raised) = ((h, k), refl)
        observed (ok modified_at) =
            put (
              b.observe_resource r run_key availability modified_at (b.observed_at s.world) s.world)

    keep_node-Visited :
        (parent : Option ContentId) (allowance run_key : ℕ) (item : ContentSourceRecord)
        (s : Scan Tree W)
        → valid_content course parent item ≡ true
        → node_seen item.remote_id s.found.content ≡ false
        → leb max_nodes s.progress.items_seen ≡ false
        → Kept (ReadObserved course max_nodes parent 0 allowance) s
        → Visited (ReadObserved course max_nodes parent 0 allowance) s (keep_node b run_key item s)
    unfolding keep_node Beside
    keep_node-Visited parent allowance run_key item s e f l (h, k) =
        kept
          (visit_all (visit_resource b run_key item.availability) item.resources (add_node item s))
          (visit_all-Visited
            (Beside course max_nodes (s.progress.items_seen + 1) (add_node item s).found)
            (visit_resource b run_key item.availability)
            (visit_resource-Visited (s.progress.items_seen + 1) (add_node item s).found run_key
              item.availability)
            item.resources (add_node item s)
            (
              h,
              (
                refl,
                ReadObserved-resources course max_nodes parent 0 allowance s.progress.items_seen
                    s.progress.resources_seen s.found k,
                refl,
                refl,
              ),
            ))
      where
        added :
            (t : Scan Tree W)
            → Beside course max_nodes
                (s.progress.items_seen + 1)
                (add_node item s).found
                t.progress.items_seen
                t.progress.resources_seen
                t.found
            → ReadObserved course max_nodes parent 1 allowance t.progress.items_seen
                t.progress.resources_seen t.found
        added t o =
            Beside-ReadObserved course max_nodes parent 1 allowance (s.progress.items_seen + 1)
              (add_node item s).found t.progress.items_seen t.progress.resources_seen t.found
              s.progress.resources_seen
              (add_node-ReadObserved course max_nodes parent allowance s.progress.items_seen
                s.progress.resources_seen s.found item e f l k)
              o

        spared :
            (t : Scan Tree W)
            → Beside course max_nodes
                (s.progress.items_seen + 1)
                (add_node item s).found
                t.progress.items_seen
                t.progress.resources_seen
                t.found
            → ReadObserved course max_nodes parent 0 allowance t.progress.items_seen
                t.progress.resources_seen t.found
        spared t o =
            ReadObserved-slack course max_nodes parent allowance t.progress.items_seen
              t.progress.resources_seen t.found (added t o)

        container :
            (t : Scan Tree W)
            → t.found.content ≡ s.found.content ++ item ∷ []
            → item.is_container ≡ true
            → Known t.found.content (some item.remote_id)
        container t c y =
            subst (λ l. Known l (some item.remote_id)) (sym c)
              (any-append (λ c. same_id item.remote_id c.remote_id && c.is_container)
                  s.found.content (item ∷ [])
                ∙ ground (arith, same_id_iff item.remote_id item.remote_id))

        kept :
            (r : Flow × Scan Tree W)
            → Visited
                (Beside course max_nodes (s.progress.items_seen + 1) (add_node item s).found)
                (add_node item s)
                r
            → Visited
                (ReadObserved course max_nodes parent 0 allowance)
                s
                (continue_with r (enqueue_node item))
        kept (Flow.go, t) ((h, o), e) =
            let (i, r, c, q) = o in
            (
              (
                h,
                enqueue-ReadObserved course max_nodes parent allowance t.progress.items_seen
                    t.progress.resources_seen t.found item (container t c) (added t o),
              ),
              e,
            )
        kept (Flow.stop, t) ((h, o), e, d) = ((h, spared t o), e, d)
        kept (Flow.throw r, t) ((h, o), e) = ((h, spared t o), e)

    pub visit_node-Visited :
        (parent : Option ContentId) (allowance run_key : ℕ) (item : ContentSourceRecord)
        (s : Scan Tree W)
        → Kept (ReadObserved course max_nodes parent 0 allowance) s
        → Visited
            (ReadObserved course max_nodes parent 0 allowance)
            s
            (visit_node b run_key course parent max_nodes item s)
    unfolding visit_node ReadObserved TreeObserved
    visit_node-Visited parent allowance run_key item s (h, k) =
        elim (Bool-cases (valid_content course parent item)) [
          | inr e ↦ rw (e, visit_node) ((h, k), refl)
          | inl e ↦ elim (Bool-cases (node_seen item.remote_id s.found.content)) [
            | inl f ↦ rw (e, f, visit_node) ((partial-Healthy _ _ s.progress, k), refl)
            | inr f ↦ elim (Bool-cases (leb max_nodes s.progress.items_seen)) [
              | inl l ↦ rw (e, f, l, visit_node) (full k)
              | inr l ↦
                  rw (e, f, l, visit_node)
                    (put e f l (b.put_content_node item (b.observed_at s.world) s.world))
            ]
          ]
        ]
      where
        full :
            ReadObserved course max_nodes parent 0 allowance s.progress.items_seen
              s.progress.resources_seen s.found
            → Visited (ReadObserved course max_nodes parent 0 allowance) s (Flow.stop, node_cap s)
        full ((n, r, m, u, f, v, p, a), k) = (
          (partial-Healthy _ _ s.progress, ((n, r, m, u, f, v, tt, omega (arith, a)), k)),
          refl,
          λ e. cc,
        )

        put :
            valid_content course parent item ≡ true
            → node_seen item.remote_id s.found.content ≡ false
            → leb max_nodes s.progress.items_seen ≡ false
            → (a : Answer (Unit {0}) × W)
            → Visited
                (ReadObserved course max_nodes parent 0 allowance)
                s
                (after_put (keep_node b run_key item) s a)
        put e f l (Answer.raised r, w) = ((h, k), refl)
        put e f l (Answer.returned u, w) =
            keep_node-Visited parent allowance run_key item (record s { world = w }) e f l (h, k)
