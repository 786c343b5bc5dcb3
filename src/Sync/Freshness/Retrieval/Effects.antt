-- ===== src/Sync/Freshness/Retrieval/Effects.antt =====
-- How often `retrieve_with_freshness` (src/ntulearn_skill/sync/freshness.py) calls its callbacks, and
-- when it lets the source be contacted.
use ntulearn_skill.Prelude.{
  if◌then◌else◌, ok, ℕ, ◌+◌, ◌≤◌, ◌≡◌, ◌⊎◌, Bool, true, false, Option, some, arith,
}
use ntulearn_skill.Core.Models.{Instant, DateTime}
use ntulearn_skill.Sync.State.{ScopeKey, SyncState}
use ntulearn_skill.Sync.Freshness.{FreshnessMode, FreshnessRequirement, verdict, evaluate_at}
use ntulearn_skill.Sync.Freshness.Retrieval.{Action, FreshnessResult, retrieve_with_freshness}

module _ {W T : Type 0} (load_local : Action W T)
    (load_state : ScopeKey → Action W (Option SyncState)) (call : ScopeKey → Action W (Unit {0}))
    (scope : ScopeKey) (requirement : FreshnessRequirement) (now : Instant)
    (historical : Bool) where
  abbrev pub retrieve : Action W (FreshnessResult T)
  retrieve =
      retrieve_with_freshness load_local load_state (some call) scope requirement
        (DateTime.aware now) historical

  -- With a refresh callback, a request that is not historical returns without an attempted refresh
  -- only where the decision that it returns asks for none.
  pub retrieve_declines :
      (w w' : W) (r : FreshnessResult T)
      → retrieve w ≡ (ok r, w')
      → historical ≡ false
      → r.refresh_attempted ≡ false
      → r.decision.should_refresh ≡ false
  unfolding retrieve_with_freshness
  retrieve_declines w w' r e h n = ground arith

  -- A historical request, and one that allows stale data or only the cache, does not attempt a
  -- refresh where it returns; its value comes from the one local read.
  pub retrieve_local :
      (w w' : W) (r : FreshnessResult T)
      → retrieve w ≡ (ok r, w')
      → (historical ≡ true)
        ⊎ (requirement.mode ≡ FreshnessMode.cache_only)
        ⊎ (requirement.mode ≡ FreshnessMode.allow_stale)
      → (r.refresh_attempted ≡ false) × (r.local_reads ≡ 1) × ((load_local w).0 ≡ ok r.value)
  unfolding retrieve_with_freshness evaluate_at verdict
  retrieve_local w w' r e h = ground arith

  -- Counters of the calls of `load_local` and of `refresh`, kept by the environment.
  module _ (reads refreshes : W → ℕ)
      (reads-load_local : (w : W) → reads (load_local w).1 ≡ reads w + 1)
      (refreshes-load_local : (w : W) → refreshes (load_local w).1 ≡ refreshes w)
      (reads-load_state : (w : W) → reads (load_state scope w).1 ≡ reads w)
      (refreshes-load_state : (w : W) → refreshes (load_state scope w).1 ≡ refreshes w)
      (reads-call : (w : W) → reads (call scope w).1 ≡ reads w)
      (refreshes-call : (w : W) → refreshes (call scope w).1 ≡ refreshes w + 1) where
    -- Where the callbacks count their calls, a retrieval that returns has read locally as often as
    -- it reports, at most twice, and has refreshed once if it reports a refresh and never otherwise.
    pub retrieve_counts :
        (w w' : W) (r : FreshnessResult T)
        → retrieve w ≡ (ok r, w')
        → (reads w' ≡ reads w + r.local_reads)
          × (refreshes w' ≡ refreshes w + (if r.refresh_attempted then 1 else 0))
          × (r.local_reads ≤ 2)
    unfolding retrieve_with_freshness
    retrieve_counts w w' r e =
        let w1 : W = (load_local w).1 in
        let w2 : W = (load_state scope w1).1 in
        let w3 : W = (call scope w2).1 in
        let w4 : W = (load_local w3).1 in
        ground (
          arith,
          reads-load_local w,
          refreshes-load_local w,
          reads-load_state w1,
          refreshes-load_state w1,
          reads-call w2,
          refreshes-call w2,
          reads-load_local w3,
          refreshes-load_local w3,
          reads-load_state w4,
          refreshes-load_state w4,
        )
