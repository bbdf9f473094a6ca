-- ===== src/Wait/Waiters/Provisioning.antt =====
-- utils_wait.go: waiting for Cloud resources to be provisioned.
use terraform_provider_confl.Base.{ℕ, ◌*◌, Bool, Option, [], ◌∷◌, String}
use terraform_provider_confl.Wait.{Call, Get, Err}
use terraform_provider_confl.Wait.States.{
  state_created, state_done, state_in_progress, state_pending_accept, state_provisioned,
  state_provisioning, state_ready, state_waiting_for_connections,
}
use terraform_provider_confl.Wait.Sdk.{Waiter}
use terraform_provider_confl.Wait.Waiters.{
  minute, hour, get_delay_and_poll_interval, get_timeout_for, networking_api_create_timeout,
  state_change_conf,
}
use terraform_provider_confl.Wait.Provision.{
  kafka_cluster_provision_status, ksql_cluster_provision_status,
  private_link_access_provision_status, private_link_attachment_provision_status,
  private_link_attachment_connection_provision_status, network_provision_status,
  dns_record_provision_status, dns_forwarder_provision_status, compute_pool_provision_status,
  peering_provision_status, transit_gateway_attachment_provision_status,
}
use terraform_provider_confl.Wait.Special.{
  access_point_provision_status, gateway_provision_status, Loaded,
  any_schema_registry_cluster_provision_status, DedicatedCluster, kafka_cluster_cku_update_status,
}

-- A function of this file without more arguments: the waiter, the test mode, the polls, the
-- environment and the resource.
abbrev pub Provisioner : Type 0
Provisioner = Waiter → Bool → (ℕ → Get) → String → String → Option Err

unfoldable pub wait_for_kafka_cluster_to_provision : String → Provisioner
unfolding get_delay_and_poll_interval get_timeout_for
wait_for_kafka_cluster_to_provision cluster_type w is_test polls environment_id cluster_id =
    w.wait_for_state (
      state_change_conf (state_provisioning ∷ []) (state_provisioned ∷ [])
        (λ n. kafka_cluster_provision_status (polls n) environment_id cluster_id)
        (get_timeout_for cluster_type) (get_delay_and_poll_interval 5 minute is_test))

unfoldable pub wait_for_ksql_cluster_to_provision : Provisioner
unfolding get_delay_and_poll_interval
wait_for_ksql_cluster_to_provision w is_test polls environment_id id = w.wait_for_state (
    state_change_conf (state_provisioning ∷ []) (state_provisioned ∷ [])
      (λ n. ksql_cluster_provision_status (polls n) environment_id id) (12 * hour)
      (get_delay_and_poll_interval 5 minute is_test))

unfoldable pub wait_for_private_link_access_to_provision : Provisioner
unfolding get_delay_and_poll_interval
wait_for_private_link_access_to_provision w is_test polls environment_id id = w.wait_for_state (
    state_change_conf (state_provisioning ∷ []) (state_ready ∷ [])
      (λ n. private_link_access_provision_status (polls n) environment_id id)
      networking_api_create_timeout (get_delay_and_poll_interval 5 minute is_test))

unfoldable pub wait_for_private_link_attachment_to_provision : Provisioner
unfolding get_delay_and_poll_interval
wait_for_private_link_attachment_to_provision w is_test polls environment_id id = w.wait_for_state (
    state_change_conf (state_provisioning ∷ []) (state_ready ∷ state_waiting_for_connections ∷ [])
      (λ n. private_link_attachment_provision_status (polls n) environment_id id)
      networking_api_create_timeout (get_delay_and_poll_interval 5 minute is_test))

unfoldable pub wait_for_private_link_attachment_connection_to_provision : Provisioner
unfolding get_delay_and_poll_interval
wait_for_private_link_attachment_connection_to_provision w is_test polls environment_id id =
    w.wait_for_state (
      state_change_conf (state_provisioning ∷ []) (state_ready ∷ [])
        (λ n. private_link_attachment_connection_provision_status (polls n) environment_id id)
        networking_api_create_timeout (get_delay_and_poll_interval 5 minute is_test))

unfoldable pub wait_for_network_to_provision : Provisioner
unfolding get_delay_and_poll_interval
wait_for_network_to_provision w is_test polls environment_id id = w.wait_for_state (
    state_change_conf (state_provisioning ∷ []) (state_ready ∷ [])
      (λ n. network_provision_status (polls n) environment_id id) networking_api_create_timeout
      (get_delay_and_poll_interval 5 minute is_test))

unfoldable pub wait_for_dns_record_to_provision : Provisioner
unfolding get_delay_and_poll_interval
wait_for_dns_record_to_provision w is_test polls environment_id id = w.wait_for_state (
    state_change_conf (state_provisioning ∷ []) (state_ready ∷ state_created ∷ [])
      (λ n. dns_record_provision_status (polls n) environment_id id) networking_api_create_timeout
      (get_delay_and_poll_interval 5 minute is_test))

unfoldable pub wait_for_dns_forwarder_to_provision : Provisioner
unfolding get_delay_and_poll_interval
wait_for_dns_forwarder_to_provision w is_test polls environment_id id = w.wait_for_state (
    state_change_conf (state_provisioning ∷ []) (state_ready ∷ state_created ∷ [])
      (λ n. dns_forwarder_provision_status (polls n) environment_id id)
      networking_api_create_timeout (get_delay_and_poll_interval 5 minute is_test))

unfoldable pub wait_for_access_point_to_provision : Provisioner
unfolding get_delay_and_poll_interval
wait_for_access_point_to_provision w is_test polls environment_id id = w.wait_for_state (
    state_change_conf (state_provisioning ∷ [])
      (state_ready ∷ state_pending_accept ∷ state_created ∷ [])
      (λ n. access_point_provision_status (polls n) environment_id id) networking_api_create_timeout
      (get_delay_and_poll_interval 5 minute is_test))

unfoldable pub wait_for_gateway_to_provision : Provisioner
unfolding get_delay_and_poll_interval
wait_for_gateway_to_provision w is_test polls environment_id id = w.wait_for_state (
    state_change_conf (state_provisioning ∷ []) (state_ready ∷ state_created ∷ [])
      (λ n. gateway_provision_status (polls n) environment_id id) networking_api_create_timeout
      (get_delay_and_poll_interval 5 minute is_test))

unfoldable pub wait_for_compute_pool_to_provision : Provisioner
unfolding get_delay_and_poll_interval
wait_for_compute_pool_to_provision w is_test polls environment_id id = w.wait_for_state (
    state_change_conf (state_provisioning ∷ []) (state_provisioned ∷ [])
      (λ n. compute_pool_provision_status (polls n) environment_id id) hour
      (get_delay_and_poll_interval 5 minute is_test))

unfoldable pub wait_for_peering_to_provision : Provisioner
unfolding get_delay_and_poll_interval
wait_for_peering_to_provision w is_test polls environment_id id = w.wait_for_state (
    state_change_conf (state_provisioning ∷ []) (state_ready ∷ state_pending_accept ∷ [])
      (λ n. peering_provision_status (polls n) environment_id id) networking_api_create_timeout
      (get_delay_and_poll_interval 5 minute is_test))

unfoldable pub wait_for_transit_gateway_attachment_to_provision : Provisioner
unfolding get_delay_and_poll_interval
wait_for_transit_gateway_attachment_to_provision w is_test polls environment_id id =
    w.wait_for_state (
      state_change_conf (state_provisioning ∷ []) (state_ready ∷ state_pending_accept ∷ [])
        (λ n. transit_gateway_attachment_provision_status (polls n) environment_id id)
        networking_api_create_timeout (get_delay_and_poll_interval 5 minute is_test))

unfoldable pub wait_for_any_schema_registry_cluster_to_provision :
    Waiter → Bool → (ℕ → String → Loaded) → String → Option Err
unfolding get_delay_and_poll_interval
wait_for_any_schema_registry_cluster_to_provision w is_test polls environment_id =
    w.wait_for_state (
      state_change_conf (state_provisioning ∷ []) (state_provisioned ∷ [])
        (λ n. any_schema_registry_cluster_provision_status (polls n) environment_id) (10 * minute)
        (get_delay_and_poll_interval 5 5 is_test))

unfoldable pub wait_for_kafka_cluster_cku_update_to_complete :
    Waiter
    → Bool
    → (ℕ → (environment_id cluster_id : String) → Call DedicatedCluster)
    → String
    → String
    → ℕ
    → Option Err
unfolding get_delay_and_poll_interval get_timeout_for
wait_for_kafka_cluster_cku_update_to_complete w is_test polls environment_id cluster_id cku =
    w.wait_for_state (
      state_change_conf (state_in_progress ∷ []) (state_done ∷ [])
        (λ n. kafka_cluster_cku_update_status (polls n) environment_id cluster_id cku)
        (get_timeout_for "Dedicated") (get_delay_and_poll_interval 5 minute is_test))
