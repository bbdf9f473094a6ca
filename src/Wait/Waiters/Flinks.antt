-- ===== src/Wait/Waiters/Flinks.antt =====
-- utils_wait.go: waiting for Flink statements and materialized tables.
use terraform_provider_confl.Base.{
  ℕ, ◌*◌, Bool, true, false, Option, List, [], ◌∷◌, String, str_eq, if◌then◌else◌,
}
use terraform_provider_confl.Wait.{Err}
use terraform_provider_confl.Wait.States.{
  state_altering, state_completed, state_creating, state_pending, state_running, state_stopped,
  state_stopping,
}
use terraform_provider_confl.Wait.Sdk.{Waiter}
use terraform_provider_confl.Wait.Waiters.{
  minute, hour, get_delay_and_poll_interval, state_change_conf,
}
use terraform_provider_confl.Wait.Flink.{
  GetStatement, GetTable, flink_statement_provision_status, flink_statement_updating_status,
  flink_materialized_table_provision_status, flink_materialized_table_updating_status,
}

abbrev pub flink_carry_over_offsets_property : String
flink_carry_over_offsets_property = "sql.tables.initial-offset-from"

-- `_, ok := properties[key]`
unfoldable pub has_key : String → List (String × String) → Bool
has_key key [] = false
has_key key ((k, v) ∷ properties) = if str_eq k key then true else has_key key properties

unfoldable pub statement_pending : List (String × String) → List String
unfolding has_key
statement_pending properties =
    if has_key flink_carry_over_offsets_property properties then [] else state_pending ∷ []

unfoldable pub statement_target : List (String × String) → List String
unfolding has_key
statement_target properties =
    if has_key flink_carry_over_offsets_property properties
    then state_pending ∷ state_running ∷ state_completed ∷ []
    else state_running ∷ state_completed ∷ []

unfoldable pub wait_for_flink_statement_to_provision :
    Waiter → Bool → (ℕ → GetStatement) → String → List (String × String) → Option Err
unfolding get_delay_and_poll_interval
wait_for_flink_statement_to_provision w is_test polls statement_name properties = w.wait_for_state (
    state_change_conf (statement_pending properties) (statement_target properties)
      (λ n. flink_statement_provision_status (polls n) statement_name) (6 * hour)
      (get_delay_and_poll_interval 5 10 is_test))

unfoldable pub updating_pending : Bool → List String
updating_pending true = state_pending ∷ state_running ∷ state_completed ∷ state_stopping ∷ []
updating_pending false = state_pending ∷ state_stopped ∷ []

unfoldable pub updating_target : Bool → List String
updating_target true = state_stopped ∷ []
updating_target false = state_running ∷ state_completed ∷ []

unfoldable pub wait_for_flink_statement_to_be_updated :
    Waiter → Bool → (ℕ → GetStatement) → String → (to_stop : Bool) → Option Err
unfolding get_delay_and_poll_interval updating_pending updating_target
wait_for_flink_statement_to_be_updated w is_test polls statement_name to_stop = w.wait_for_state (
    state_change_conf (updating_pending to_stop) (updating_target to_stop)
      (λ n. flink_statement_updating_status (polls n) statement_name) (20 * minute)
      (get_delay_and_poll_interval 5 10 is_test))

unfoldable pub table_pending : Bool → List String
table_pending true =
    state_creating ∷ state_pending ∷ state_running ∷ state_stopping ∷ state_altering ∷ []
table_pending false =
    state_creating ∷ state_pending ∷ state_stopped ∷ state_stopping ∷ state_altering ∷ []

unfoldable pub table_target : Bool → List String
table_target true = state_stopped ∷ []
table_target false = state_running ∷ []

abbrev pub WaitForTable : Type 0
WaitForTable =
    Waiter
    → Bool
    → (ℕ → GetTable)
    → (org_id environment_id kafka_id table_name : String) → (stopped : Bool) → (timeout : ℕ)
    → Option Err

unfoldable pub wait_for_flink_materialized_table_to_provision : WaitForTable
unfolding get_delay_and_poll_interval table_pending table_target
wait_for_flink_materialized_table_to_provision w is_test polls org environment kafka name
      want_stopped timeout =
    w.wait_for_state (
      state_change_conf (table_pending want_stopped) (table_target want_stopped)
        (λ n. flink_materialized_table_provision_status (polls n) org environment kafka name)
        timeout (get_delay_and_poll_interval 5 10 is_test))

unfoldable pub wait_for_flink_materialized_table_to_be_updated : WaitForTable
unfolding get_delay_and_poll_interval table_pending table_target
wait_for_flink_materialized_table_to_be_updated w is_test polls org environment kafka name to_stop
      timeout =
    w.wait_for_state (
      state_change_conf (table_pending to_stop) (table_target to_stop)
        (λ n. flink_materialized_table_updating_status (polls n) org environment kafka name) timeout
        (get_delay_and_poll_interval 5 10 is_test))
