-- ===== src/Wait/Resumed.antt =====
-- Waiting for a Flink statement to be stopped or resumed.
use terraform_provider_confl.Base.{ℕ, ◌<◌, ◌≡◌, ◌≢◌, refl, Bool, false, none, String}
use terraform_provider_confl.Wait.{Call, Resource, found}
use terraform_provider_confl.Wait.States.{state_stopped, state_stopping}
use terraform_provider_confl.Wait.Flink.{
  GetStatement, flink_statement_updating_status, statement_updating_outcome,
}
use terraform_provider_confl.Wait.Sdk.{Waiter}
use terraform_provider_confl.Wait.Waiters.Flinks.{
  wait_for_flink_statement_to_be_updated, updating_pending, updating_target,
}

-- The statement is read, without an error, in that phase.
abbrev pub InPhase : String → Call Resource → Type 0
InPhase phase call = (call.err ≡ none) × (call.value.phase ≡ phase)

updating-InPhase_stopping :
    (get : GetStatement) (name : String)
    → InPhase state_stopping (get name)
    → flink_statement_updating_status get name ≡ found state_stopping
unfolding flink_statement_updating_status statement_updating_outcome
updating-InPhase_stopping get name (fine, phase) =
    rw (fine, phase, flink_statement_updating_status, statement_updating_outcome) refl

updating-InPhase_stopped :
    (get : GetStatement) (name : String)
    → InPhase state_stopped (get name)
    → flink_statement_updating_status get name ≡ found state_stopped
unfolding flink_statement_updating_status statement_updating_outcome
updating-InPhase_stopped get name (fine, phase) =
    rw (fine, phase, flink_statement_updating_status, statement_updating_outcome) refl

module _ (w : Waiter) (is_test : Bool) (polls : ℕ → GetStatement) (name : String) (n : ℕ)
    (before : (m : ℕ) → m < n → InPhase state_stopped (polls m name))
    (then_stopping : InPhase state_stopping (polls n name)) where
  -- If the polls before the n-th read STOPPED and the n-th reads STOPPING, then the wait for the
  -- statement to be resumed ends with an error.
  pub resume-refuses_stopping :
      wait_for_flink_statement_to_be_updated w is_test polls name false ≢ none
  unfolding wait_for_flink_statement_to_be_updated updating_pending updating_target
  resume-refuses_stopping =
      w.refuses _ n (λ m l. rw (updating-InPhase_stopped (polls m) name (before m l)) refl)
        (rw (updating-InPhase_stopping (polls n) name then_stopping) refl)
