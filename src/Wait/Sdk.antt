-- ===== src/Wait/Sdk.antt =====
-- `resource.StateChangeConf` and `WaitForStateContext` of github.com/hashicorp/terraform-plugin-sdk/v2,
-- which the repository only calls. Durations are in seconds. `refresh n` is what the refresh function
-- returns at its n-th call, the first being 0.
use terraform_provider_confl.Base.{
  ℕ, ◌+◌, ◌*◌, ◌<◌, ◌≡◌, ◌≢◌, Bool, true, false, not, ◌&&◌, Option, none, some, List, [], ◌∷◌,
  String, one_of,
}
use terraform_provider_confl.Wait.{Err, Outcome, returned}

pub record StateChangeConf : Type 0 where
  pub pending : List String
  pub target : List String
  pub refresh : ℕ → Outcome
  pub timeout : ℕ
  pub delay : ℕ
  pub poll_interval : ℕ
  -- 0, the zero value, counts as 1.
  pub continuous_target_occurence : ℕ

-- A result in a target state, with no error.
abbrev pub in_target : StateChangeConf → Outcome → Bool
in_target conf (returned true state none) = one_of state conf.target
in_target conf _ = false

-- A result in a pending state and in no target state, with no error.
abbrev pub in_pending : StateChangeConf → Outcome → Bool
in_pending conf (returned true state none) =
    one_of state conf.pending && not (one_of state conf.target)
in_pending conf _ = false

-- An error, or a result in a state that is neither a target nor pending, where pending states are
-- named.
abbrev has_pending : StateChangeConf → Bool
has_pending conf = elim conf.pending [ [] ↦ false | _ ∷ _ ↦ true ]

abbrev pub is_refused : StateChangeConf → Outcome → Bool
is_refused conf (returned found state (some err)) = true
is_refused conf (returned true state none) =
    has_pending conf && (not (one_of state conf.pending) && not (one_of state conf.target))
is_refused conf _ = false

-- The calls before the n-th all say "pending".
abbrev pub PendingBefore : StateChangeConf → ℕ → Type 0
PendingBefore conf n = (m : ℕ) → m < n → in_pending conf (conf.refresh m) ≡ true

-- From the n-th call on, the target is met as often in a row as the configuration asks for.
abbrev pub MetAt : StateChangeConf → ℕ → Type 0
MetAt conf n =
    (in_target conf (conf.refresh n) ≡ true)
    × ((k : ℕ)
        → k < conf.continuous_target_occurence
        → in_target conf (conf.refresh (n + k)) ≡ true)

-- What the documentation of `WaitForState` says of it. `none` is the nil error.
-- `met`: without an error the refresh function has met the target.
-- `waits`: pending states and then the target, within the timeout, give no error. The calls of the
-- refresh function are taken to be immediate.
-- `refuses`: after pending states, an error or an unexpected state is an error.
pub record Waiter : Type 0 where
  pub wait_for_state : StateChangeConf → Option Err
  pub met :
      (conf : StateChangeConf)
      → conf.target ≢ []
      → wait_for_state conf ≡ none
      → (n : ℕ) × MetAt conf n
  pub waits :
      (conf : StateChangeConf) (n : ℕ)
      → PendingBefore conf n
      → MetAt conf n
      → 0 < conf.poll_interval
      → conf.delay + (n + conf.continuous_target_occurence) * conf.poll_interval < conf.timeout
      → wait_for_state conf ≡ none
  pub refuses :
      (conf : StateChangeConf) (n : ℕ)
      → PendingBefore conf n
      → is_refused conf (conf.refresh n) ≡ true
      → wait_for_state conf ≢ none
