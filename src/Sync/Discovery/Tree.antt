-- ===== src/Sync/Discovery/Tree.antt =====
-- src/ntulearn_skill/sync/discovery.py: the observed tree, and what is added to it.
use ntulearn_skill.Prelude.{
  leb, Bool-cases, length, any, All, length-append, All-imp, All-append, ℕ, ◌+◌, ◌≤◌, ◌≡◌, sym, ◌∙◌,
  inl, inr, true, false, ◌&&◌, not, Option, some, [], ◌∷◌, ◌++◌, arith,
}
use ntulearn_skill.Core.Identifiers.{CourseId, ContentId, same_id}
use ntulearn_skill.Client.Records.{ContentSourceRecord}
use ntulearn_skill.Sync.Discovery.Content.{Tree, valid_content, node_seen, enqueue}
use ntulearn_skill.Sync.Lifecycle.Checks.{unique}
use ntulearn_skill.Sync.Discovery.Observed.{unique-append}
use mathlib.Core.Path.{subst}
use ntulearn_skill.Sync.Discovery.Known.{
  content_ids, content_ids-append, node_seen-ids, Known, Forest, Known-append, Forest-append,
  same_parent-equal,
}

module _ (course : CourseId) (max_nodes : ℕ) where
  -- What the walk observed: as many nodes and resources as it counted, with different identities, valid,
  -- each after its parent. The nodes still pending are containers among them, and `allowance` counts
  -- what the deque may still hold, with `slack` to spare.
  unfoldable pub TreeObserved : ℕ → ℕ → ℕ → ℕ → Tree → Type 0
  TreeObserved slack allowance items resources t =
      (items ≡ length t.content)
      × (resources ≡ length t.resources)
      × (items ≤ max_nodes)
      × (unique (content_ids t.content) ≡ true)
      × Forest [] t.content
      × All (λ c. valid_content course c.parent_id c ≡ true) t.content
      × All (Known t.content) t.pending
      × (length t.pending + slack + max_nodes ≤ items + allowance)

  unfoldable pub ReadObserved : Option ContentId → ℕ → ℕ → ℕ → ℕ → Tree → Type 0
  unfolding TreeObserved
  ReadObserved parent slack allowance items resources t =
      TreeObserved slack allowance items resources t × Known t.content parent

  -- A resource leaves the nodes and the deque alone.
  unfoldable pub Beside : ℕ → Tree → ℕ → ℕ → Tree → Type 0
  Beside count tree items resources t =
      (items ≡ count)
      × (resources ≡ length t.resources)
      × (t.content ≡ tree.content)
      × (t.pending ≡ tree.pending)

  pub Beside-ReadObserved :
      (parent : Option ContentId) (slack allowance count : ℕ) (tree : Tree) (items resources : ℕ)
      (t : Tree) (before : ℕ)
      → ReadObserved parent slack allowance count before tree
      → Beside count tree items resources t
      → ReadObserved parent slack allowance items resources t
  unfolding ReadObserved Beside TreeObserved
  Beside-ReadObserved parent slack allowance count tree items resources t before
        ((n, r, m, u, f, v, p, a), k) (i, r', c, q) =
      rw (i, c, q) ((n, r', m, u, f, v, p, a), k)

  pub add_node-ReadObserved :
      (parent : Option ContentId) (allowance items resources : ℕ) (t : Tree)
      (item : ContentSourceRecord)
      → valid_content course parent item ≡ true
      → node_seen item.remote_id t.content ≡ false
      → leb max_nodes items ≡ false
      → ReadObserved parent 0 allowance items resources t
      → ReadObserved parent 1 allowance
          (items + 1)
          resources
          (record t { content = t.content ++ item ∷ [] })
  unfolding ReadObserved TreeObserved valid_content
  add_node-ReadObserved parent allowance items resources t item e s l
        ((n, r, m, u, f, v, p, a), k) =
      let same = same_parent-equal item.parent_id parent (ground (arith)) in
      (
        (
          omega (arith, n, length-append t.content (item ∷ [])),
          r,
          ground (arith),
          subst (λ l. unique l ≡ true) (sym (content_ids-append t.content item))
              (unique-append (content_ids t.content) item.remote_id u
                (sym (node_seen-ids item.remote_id t.content) ∙ s)),
          Forest-append [] t.content item f (subst (Known t.content) (sym same) k),
          All-append (λ c. valid_content course c.parent_id c ≡ true) t.content (item ∷ []) v
              (subst (λ q. valid_content course q item ≡ true) (sym same) e, tt),
          All-imp (Known t.content) (Known (t.content ++ item ∷ [])) t.pending
              (Known-append t.content item) p,
          omega (arith, a),
        ),
        Known-append t.content item parent k,
      )

  pub ReadObserved-slack :
      (parent : Option ContentId) (allowance items resources : ℕ) (t : Tree)
      → ReadObserved parent 1 allowance items resources t
      → ReadObserved parent 0 allowance items resources t
  unfolding ReadObserved TreeObserved
  ReadObserved-slack parent allowance items resources t ((n, r, m, u, f, v, p, a), k) =
      ((n, r, m, u, f, v, p, omega (arith, a)), k)

  pub ReadObserved-resources :
      (parent : Option ContentId) (slack allowance items resources : ℕ) (t : Tree)
      → ReadObserved parent slack allowance items resources t
      → resources ≡ length t.resources
  unfolding ReadObserved TreeObserved
  ReadObserved-resources parent slack allowance items resources t ((n, r, m, u, f, v, p, a), k) = r

  pub enqueue-ReadObserved :
      (parent : Option ContentId) (allowance items resources : ℕ) (t : Tree)
      (item : ContentSourceRecord)
      → (item.is_container ≡ true → Known t.content (some item.remote_id))
      → ReadObserved parent 1 allowance items resources t
      → ReadObserved parent 0 allowance items resources (enqueue item t)
  unfolding ReadObserved TreeObserved enqueue
  enqueue-ReadObserved parent allowance items resources t item c ((n, r, m, u, f, v, p, a), k) =
      elim (Bool-cases (item.is_container && not (any (same_id item.remote_id) t.queued))) [
        | inr e ↦ rw (e, enqueue) ((n, r, m, u, f, v, p, omega (arith, a)), k)
        | inl e ↦
            rw (e, enqueue)
              (
                (
                  n,
                  r,
                  m,
                  u,
                  f,
                  v,
                  All-append (Known t.content) t.pending (some item.remote_id ∷ []) p
                      (c (ground (arith)), tt),
                  omega (arith, a, length-append t.pending (some item.remote_id ∷ [])),
                ),
                k,
              )
      ]
