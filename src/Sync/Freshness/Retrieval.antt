-- ===== src/Sync/Freshness/Retrieval.antt =====
-- src/ntulearn_skill/sync/freshness.py: `retrieve_with_freshness`, over callbacks that read and change
-- an environment of the caller's.
pub mod Effects
use ntulearn_skill.Prelude.{
  if◌then◌else◌, Result, ok, err, ℕ, Bool, true, false, not, Option, none, some, [], ◌∷◌, ◌++◌,
}
use ntulearn_skill.Core.Models.{Instant, DateTime}
use ntulearn_skill.Client.Contracts.{aware_instant}
use ntulearn_skill.Sync.State.{ScopeKey, SyncState}
use ntulearn_skill.Sync.Freshness.{
  FreshnessWarning, FreshnessRequirement, FreshnessDecision, evaluate_at,
}

-- A callback: it changes the environment, and returns or raises.
abbrev pub Action : Type 0 → Type 0 → Type 0
Action W A = W → Result A × W

pub record FreshnessResult (T : Type 0) : Type 0 where
  pub value : T
  pub decision : FreshnessDecision
  pub refresh_attempted : Bool
  pub local_reads : ℕ

module _ {W A B : Type 0} where
  abbrev pub and_then : Action W A → (A → Action W B) → Action W B
  and_then m f w = let (r, w') = m w in elim r [ ok a ↦ f a w' | err e ↦ (err e, w') ]

  -- `try: m() except Exception: handler() else: f()`
  abbrev pub try_else : Action W A → Action W B → Action W B → Action W B
  try_else m handler f w = let (r, w') = m w in elim r [ ok a ↦ f w' | err e ↦ handler w' ]

abbrev pub return {ℓ} : {W : Type 0} {A : Type ℓ} → A → W → Result A × W
return a w = (ok a, w)

-- `replace(decision, warning_codes=decision.warning_codes + (warning,))`
abbrev pub add_warning : FreshnessWarning → FreshnessDecision → FreshnessDecision
add_warning w d = record d { warning_codes = d.warning_codes ++ w ∷ [] }

abbrev pub result_of : {T : Type 0} → T → FreshnessDecision → Bool → ℕ → FreshnessResult T
result_of value decision attempted reads = record {
  value = value;
  decision = decision;
  refresh_attempted = attempted;
  local_reads = reads;
}

module _ {W T : Type 0} (load_local : Action W T)
    (load_state : ScopeKey → Action W (Option SyncState))
    (refresh : Option (ScopeKey → Action W (Unit {0}))) (scope : ScopeKey)
    (requirement : FreshnessRequirement) where
  -- A local read, then the evaluation of the state of the scope.
  unfoldable pub read_and_evaluate : Instant → Action W (T × FreshnessDecision)
  read_and_evaluate now = and_then load_local (λ value.
      and_then (load_state scope) (λ state. return (value, evaluate_at state requirement now)))

  -- What follows a decision to refresh.
  unfoldable pub refresh_once : Instant → T → FreshnessDecision → Action W (FreshnessResult T)
  unfolding read_and_evaluate
  refresh_once now value decision = elim refresh [
    | none ↦ return (
        result_of value (add_warning FreshnessWarning.targeted_refresh_unavailable decision) false
          1)
    | some call ↦
        try_else (call scope)
          (return (
            result_of value (add_warning FreshnessWarning.targeted_refresh_failed decision) true 1))
          (and_then (read_and_evaluate now) (λ r. return (result_of r.0 r.1 true 2)))
  ]

  unfoldable pub decide : Instant → Bool → T → FreshnessDecision → Action W (FreshnessResult T)
  unfolding refresh_once
  decide now historical value decision =
      if not decision.should_refresh
      then return (result_of value decision false 1)
      else (if historical
          then return (
              result_of value (add_warning FreshnessWarning.historical_local_only decision) false 1)
          else refresh_once now value decision)

  unfoldable pub retrieve_with_freshness : DateTime → Bool → Action W (FreshnessResult T)
  unfolding read_and_evaluate decide
  retrieve_with_freshness now historical w =
      elim (aware_instant now "freshness evaluation time must be timezone-aware") [
        | err e ↦ (err e, w)
        | ok t ↦ and_then (read_and_evaluate t) (λ r. decide t historical r.0 r.1) w
      ]
