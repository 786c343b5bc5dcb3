-- ===== src/Sync/Discovery/Known.antt =====
-- src/ntulearn_skill/sync/discovery.py: parents that stand before their nodes.
use ntulearn_skill.Prelude.{
  any, append_nil, append_assoc, any-append, ◌≡◌, refl, sym, ap, ◌∙◌, true, ◌&&◌, ◌||◌, Option,
  none, some, List, [], ◌∷◌, ◌++◌, arith,
}
use ntulearn_skill.Core.Identifiers.{ContentId, same_id, same_id_iff}
use ntulearn_skill.Client.Records.{ContentSourceRecord}
use ntulearn_skill.Sync.Discovery.Content.{same_parent, node_seen}
use mathlib.Core.Path.{subst}

abbrev pub content_ids : List ContentSourceRecord → List ContentId
content_ids [] = []
content_ids (c ∷ cs) = c.remote_id ∷ content_ids cs

pub content_ids-append :
    (cs : List ContentSourceRecord) (c : ContentSourceRecord)
    → content_ids (cs ++ c ∷ []) ≡ content_ids cs ++ c.remote_id ∷ []
content_ids-append [] c = refl
content_ids-append (d ∷ cs) c = ap (λ l. d.remote_id ∷ l) (content_ids-append cs c)

pub node_seen-ids :
    (id : ContentId) (cs : List ContentSourceRecord)
    → node_seen id cs ≡ any (same_id id) (content_ids cs)
node_seen-ids id [] = refl
node_seen-ids id (c ∷ cs) = ap (λ t. same_id id c.remote_id || t) (node_seen-ids id cs)

-- A parent is the root, or a container among the nodes given.
abbrev pub Known : List ContentSourceRecord → Option ContentId → Type 0
Known content none = Unit
Known content (some p) = any (λ c. same_id p c.remote_id && c.is_container) content ≡ true

-- The parent of every node stands before it.
abbrev pub Forest : List ContentSourceRecord → List ContentSourceRecord → Type 0
Forest before [] = Unit
Forest before (c ∷ cs) = Known before c.parent_id × Forest (before ++ c ∷ []) cs

pub Known-append :
    (content : List ContentSourceRecord) (c : ContentSourceRecord) (p : Option ContentId)
    → Known content p
    → Known (content ++ c ∷ []) p
Known-append content c none k = tt
Known-append content c (some p) k =
    any-append (λ c. same_id p c.remote_id && c.is_container) content (c ∷ []) ∙ ground (arith)

pub Forest-append :
    (before cs : List ContentSourceRecord) (c : ContentSourceRecord)
    → Forest before cs
    → Known (before ++ cs) c.parent_id
    → Forest before (cs ++ c ∷ [])
Forest-append before [] c f k = (subst (λ l. Known l c.parent_id) (append_nil before) k, tt)
Forest-append before (d ∷ cs) c (h, f) k = (
  h,
  Forest-append (before ++ d ∷ []) cs c f
      (subst (λ l. Known l c.parent_id) (sym (append_assoc before (d ∷ []) cs)) k),
)

pub same_parent-equal : (p q : Option ContentId) → same_parent p q ≡ true → p ≡ q
same_parent-equal none none e = refl
same_parent-equal none (some q) e = cc
same_parent-equal (some p) none e = cc
same_parent-equal (some p) (some q) e = ap some ((same_id_iff p q).0 e)
