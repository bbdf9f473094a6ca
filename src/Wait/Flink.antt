-- ===== src/Wait/Flink.antt =====
-- utils_wait.go: the refresh functions for Flink statements and materialized tables.
use terraform_provider_confl.Base.{
  Bool, ◌||◌, none, some, List, [], ◌∷◌, String, str_eq, one_of, if◌then◌else◌,
}
use terraform_provider_confl.Wait.{
  Call, Resource, status_is, unexpected_state, Outcome, found, failed, on_success,
}
use terraform_provider_confl.Wait.States.{
  state_altering, state_completed, state_creating, state_failed, state_failing, state_pending,
  state_running, state_stopped, state_stopping, state_unexpected, state_unknown,
}

abbrev pub GetStatement : Type 0
GetStatement = (statement_name : String) → Call Resource

statement_provision_outcome : String → Resource → Outcome
statement_provision_outcome name r =
    if one_of r.phase (state_pending ∷ state_running ∷ state_completed ∷ [])
    then found r.phase
    else if str_eq r.phase state_failed || str_eq r.phase state_failing
    then failed state_failed (status_is name r.phase (some r.detail))
    else failed state_unexpected (unexpected_state name r.phase none)

unfoldable pub flink_statement_provision_status : GetStatement → String → Outcome
unfolding statement_provision_outcome
flink_statement_provision_status get statement_name =
    on_success (get statement_name) state_unknown (statement_provision_outcome statement_name)

abbrev pub updating_phases : List String
updating_phases =
    state_pending ∷ state_running ∷ state_completed ∷ state_stopped ∷ state_stopping ∷ []

unfoldable pub statement_updating_outcome : String → Resource → Outcome
statement_updating_outcome name r =
    if one_of r.phase updating_phases
    then found r.phase
    else if str_eq r.phase state_failed || str_eq r.phase state_failing
    then failed state_failed (status_is name r.phase none)
    else failed state_unexpected (unexpected_state name r.phase none)

-- The parameter that only names the target for the log is left out.
unfoldable pub flink_statement_updating_status : GetStatement → String → Outcome
unfolding statement_updating_outcome
flink_statement_updating_status get statement_name =
    on_success (get statement_name) state_unknown (statement_updating_outcome statement_name)

abbrev pub GetTable : Type 0
GetTable = (org_id environment_id kafka_id table_name : String) → Call Resource

unfoldable pub is_flink_materialized_table_transitional_phase : String → Bool
is_flink_materialized_table_transitional_phase phase =
    one_of phase (state_creating ∷ state_pending ∷ state_stopping ∷ state_altering ∷ [])

table_outcome : String → Resource → Outcome
unfolding is_flink_materialized_table_transitional_phase
table_outcome name r =
    if is_flink_materialized_table_transitional_phase r.phase
      || (str_eq r.phase state_running || str_eq r.phase state_stopped)
    then found r.phase
    else if str_eq r.phase state_failed || str_eq r.phase state_failing
    then failed state_failed (status_is name r.phase (some r.detail))
    else failed state_unexpected (unexpected_state name r.phase none)

unfoldable pub flink_materialized_table_provision_status :
    GetTable → String → String → String → String → Outcome
unfolding table_outcome
flink_materialized_table_provision_status get org_id environment_id kafka_id table_name =
    on_success (get org_id environment_id kafka_id table_name) state_unknown
      (table_outcome table_name)

unfoldable pub flink_materialized_table_updating_status :
    GetTable → String → String → String → String → Outcome
unfolding table_outcome
flink_materialized_table_updating_status get org_id environment_id kafka_id table_name =
    on_success (get org_id environment_id kafka_id table_name) state_unknown
      (table_outcome table_name)
