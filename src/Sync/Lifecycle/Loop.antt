-- ===== src/Sync/Lifecycle/Loop.antt =====
-- src/ntulearn_skill/sync/lifecycle.py: the loop of `ResourceInventoryReconciler.reconcile` over the
-- resources of the course.
use ntulearn_skill.Prelude.{
  ltb, ◌==◌, if◌then◌else◌, any, count_if, contains, ℕ, ◌+◌, Bool, ◌&&◌, ◌||◌, not, none, List, [],
  ◌∷◌, ◌++◌,
}
use ntulearn_skill.Core.Models.{Availability, ObservationStatus, FetchDecision, Instant}
use ntulearn_skill.Sync.Lifecycle.{
  Resource, Observation, ResourceRow, is_missing, is_removed, is_unavailable, is_not_observed,
  is_unknown,
}

-- The tables that the loop changes, and its counters.
pub record Progress : Type 0 where
  pub resources : List Resource
  pub observations : List Observation
  pub missing : ℕ
  pub uncertain : ℕ
  pub candidates : ℕ
  pub unavailable_parent : Bool

abbrev pub before : Instant → ℕ → Instant → ℕ → Bool
before a_at a_run b_at b_run = ltb a_at b_at || ((a_at == b_at) && ltb a_run b_run)

-- The row that `_append_resource_observation` looks for.
abbrev pub is_recorded : ℕ → ℕ → Observation → Bool
is_recorded key run o =
    (o.resource_key == key)
    && (o.run_key == run)
    && (is_not_observed o.status || is_unknown o.status)

-- `_prior_omission`
abbrev pub is_omission : ℕ → ℕ → Instant → Observation → Bool
is_omission key run at o =
    (o.resource_key == key)
    && is_not_observed o.status
    && is_missing o.availability
    && before o.observed_at o.run_key at run

unfoldable pub prior_omission : ℕ → ℕ → Instant → List Observation → Bool
prior_omission key run at = any (is_omission key run at)

-- The later observation that keeps the `UPDATE` from marking a resource.
abbrev pub is_authoritative : ℕ → ℕ → Instant → Observation → Bool
is_authoritative key run at o =
    (o.resource_key == key) && not (is_unknown o.status) && before at run o.observed_at o.run_key

-- The `WHERE` clause of the `UPDATE`.
unfoldable pub is_markable : ℕ → ℕ → Instant → List Observation → Resource → Bool
is_markable key run at observations r =
    (r.key == key)
    && not (is_removed r.availability)
    && not (is_missing r.availability)
    && not (any (is_authoritative key run at) observations)

unfoldable pub mark_missing : ℕ → ℕ → Instant → List Observation → List Resource → List Resource
mark_missing key run at observations [] = []
mark_missing key run at observations (r ∷ rs) =
    (if is_markable key run at observations r
      then record r { availability = Availability.missing }
      else r)
    ∷ mark_missing key run at observations rs

abbrev pub new_observation : ResourceRow → ℕ → Bool → Instant → Observation
new_observation row run can_mark at = record {
  resource_key = row.key;
  run_key = run;
  status = if can_mark then ObservationStatus.not_observed else ObservationStatus.unknown;
  evidence = row.evidence;
  availability = if can_mark then Availability.missing else row.availability;
  observed_at = at;
  fetch_decision = FetchDecision.deferred;
  version_key = none;
}

module _ (comparable : Bool) (run : ℕ) (at : Instant) (seen : List ℕ) where
  -- `resource.key in seen_resource_keys or resource.availability is REMOVED_CONFIRMED`
  unfoldable pub is_skipped : ResourceRow → Bool
  is_skipped row = contains row.key seen || is_removed row.availability

  abbrev pub can_mark_missing : ResourceRow → Bool
  can_mark_missing row = comparable && not (is_unavailable row.parent_availability)

  -- The body of the loop once the observation is inserted.
  unfoldable pub mark_row : ResourceRow → Progress → Progress
  mark_row row p =
      let written = p.observations ++ new_observation row run (can_mark_missing row) at ∷ [] in
      if can_mark_missing row
      then record p {
        resources = mark_missing row.key run at written p.resources;
        observations = written;
        missing = p.missing + count_if (is_markable row.key run at written) p.resources;
        candidates =
            (if is_missing row.availability && prior_omission row.key run at written then 1 else 0)
            + p.candidates;
      }
      else record p {
        observations = written;
        uncertain = p.uncertain + 1;
        unavailable_parent =
            p.unavailable_parent || (comparable && is_unavailable row.parent_availability);
      }

  unfoldable pub visit : ResourceRow → Progress → Progress
  unfolding mark_row is_skipped
  visit row p =
      if is_skipped row || any (is_recorded row.key run) p.observations then p else mark_row row p

  unfoldable pub visit_all : List ResourceRow → Progress → Progress
  visit_all [] p = p
  visit_all (row ∷ rows) p = visit_all rows (visit row p)
