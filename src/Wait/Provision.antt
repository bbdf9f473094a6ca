-- ===== src/Wait/Provision.antt =====
-- utils_wait.go: the refresh functions that wait for a phase of a Cloud resource.
use terraform_provider_confl.Base.{
  Option, none, some, List, [], ◌∷◌, String, str_eq, one_of, if◌then◌else◌,
}
use terraform_provider_confl.Wait.{
  Call, Resource, Get, status_is, unexpected_state, Outcome, found, failed, on_success,
}
use terraform_provider_confl.Wait.States.{
  state_applied, state_created, state_failed, state_pending, state_pending_accept,
  state_provisioned, state_provisioning, state_ready, state_unexpected, state_unknown,
  state_waiting_for_connections,
}

-- The ladder that most of the functions share: an accepted phase is the state, `FAILED` and any
-- other phase are errors. `detail` is what the texts of the errors hold beside the phase.
unfoldable pub phase_outcome :
    (accepted : List String) (id : String) (detail : Resource → Option String) → Resource → Outcome
phase_outcome accepted id detail r =
    if one_of r.phase accepted
    then found r.phase
    else if str_eq r.phase state_failed
    then failed state_failed (status_is id state_failed (detail r))
    else failed state_unexpected (unexpected_state id r.phase (detail r))

abbrev pub no_detail : Resource → Option String
no_detail r = none

abbrev pub with_detail : Resource → Option String
with_detail r = some r.detail

abbrev pub provisioned : List String
provisioned = state_provisioning ∷ state_provisioned ∷ []

unfoldable pub kafka_cluster_provision_status : Get → String → String → Outcome
unfolding phase_outcome
kafka_cluster_provision_status get environment_id cluster_id =
    on_success (get environment_id cluster_id) state_unknown
      (phase_outcome provisioned cluster_id no_detail)

unfoldable pub ksql_cluster_provision_status : Get → String → String → Outcome
unfolding phase_outcome
ksql_cluster_provision_status get environment_id cluster_id =
    on_success (get environment_id cluster_id) state_unknown
      (phase_outcome provisioned cluster_id no_detail)

unfoldable pub schema_registry_cluster_provision_status : Get → String → String → Outcome
unfolding phase_outcome
schema_registry_cluster_provision_status get environment_id cluster_id =
    on_success (get environment_id cluster_id) state_unknown
      (phase_outcome provisioned cluster_id no_detail)

unfoldable pub compute_pool_provision_status : Get → String → String → Outcome
unfolding phase_outcome
compute_pool_provision_status get environment_id compute_pool_id =
    on_success (get environment_id compute_pool_id) state_unknown
      (phase_outcome provisioned compute_pool_id no_detail)

unfoldable pub private_link_access_provision_status : Get → String → String → Outcome
unfolding phase_outcome
private_link_access_provision_status get environment_id private_link_access_id =
    on_success (get environment_id private_link_access_id) state_unknown
      (phase_outcome (state_provisioning ∷ state_ready ∷ []) private_link_access_id with_detail)

-- `executePlattRead` and `executePlattcRead` take the resource's id before the environment's.
unfoldable pub execute_platt_read : Get → (platt_id environment_id : String) → Call Resource
execute_platt_read get platt_id environment_id = get environment_id platt_id

unfoldable pub execute_plattc_read : Get → (plattc_id environment_id : String) → Call Resource
execute_plattc_read get plattc_id environment_id = get environment_id plattc_id

unfoldable pub private_link_attachment_provision_status : Get → String → String → Outcome
unfolding phase_outcome execute_platt_read
private_link_attachment_provision_status get environment_id private_link_attachment_id =
    on_success (execute_platt_read get private_link_attachment_id environment_id) state_unknown (
      phase_outcome (state_provisioning ∷ state_ready ∷ state_waiting_for_connections ∷ [])
        private_link_attachment_id with_detail)

unfoldable pub private_link_attachment_connection_provision_status : Get → String → String → Outcome
unfolding phase_outcome execute_plattc_read
private_link_attachment_connection_provision_status get environment_id plattc_id =
    on_success (execute_plattc_read get plattc_id environment_id) state_unknown
      (phase_outcome (state_provisioning ∷ state_ready ∷ []) plattc_id with_detail)

unfoldable pub network_provision_status : Get → String → String → Outcome
unfolding phase_outcome
network_provision_status get environment_id network_id =
    on_success (get environment_id network_id) state_unknown
      (phase_outcome (state_provisioning ∷ state_ready ∷ []) network_id with_detail)

unfoldable pub dns_record_provision_status : Get → String → String → Outcome
unfolding phase_outcome
dns_record_provision_status get environment_id dns_record_id =
    on_success (get environment_id dns_record_id) state_unknown (
      phase_outcome (state_provisioning ∷ state_ready ∷ state_created ∷ []) dns_record_id
        with_detail)

unfoldable pub dns_forwarder_provision_status : Get → String → String → Outcome
unfolding phase_outcome
dns_forwarder_provision_status get environment_id dns_forwarder_id =
    on_success (get environment_id dns_forwarder_id) state_unknown (
      phase_outcome (state_provisioning ∷ state_ready ∷ state_created ∷ []) dns_forwarder_id
        with_detail)

unfoldable pub peering_provision_status : Get → String → String → Outcome
unfolding phase_outcome
peering_provision_status get environment_id peering_id =
    on_success (get environment_id peering_id) state_unknown (
      phase_outcome (state_provisioning ∷ state_ready ∷ state_pending_accept ∷ []) peering_id
        with_detail)

unfoldable pub transit_gateway_attachment_provision_status : Get → String → String → Outcome
unfolding phase_outcome
transit_gateway_attachment_provision_status get environment_id attachment_id =
    on_success (get environment_id attachment_id) state_unknown (
      phase_outcome (state_provisioning ∷ state_ready ∷ state_pending_accept ∷ []) attachment_id
        with_detail)

-- The connector's display name takes the place of its id.
unfoldable pub connector_offset_update_status : (String → Call Resource) → String → Outcome
unfolding phase_outcome
connector_offset_update_status get display_name =
    on_success (get display_name) state_unknown
      (phase_outcome (state_pending ∷ state_applied ∷ []) display_name with_detail)
