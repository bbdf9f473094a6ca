-- ===== src/Wait/Waiters/Connectors.antt =====
-- utils_wait.go: waiting for connectors and mirror topics.
use terraform_provider_confl.Base.{
  ℕ, ◌*◌, Bool, Option, List, [], ◌∷◌, String, str_eq, if◌then◌else◌,
}
use terraform_provider_confl.Wait.{Call, Resource, Err}
use terraform_provider_confl.Wait.States.{
  state_applied, state_degraded, state_pending, state_pending_stopped, state_provisioning,
  state_running, state_stopped,
}
use terraform_provider_confl.Wait.Sdk.{Waiter}
use terraform_provider_confl.Wait.Waiters.{
  minute, hour, get_delay_and_poll_interval, state_change_conf,
}
use terraform_provider_confl.Wait.Provision.{connector_offset_update_status}
use terraform_provider_confl.Wait.Special.{
  GetConnector, connector_provision_status, connector_update_status,
  kafka_mirror_topic_update_status,
}

unfoldable pub wait_for_connector_offsets_update_to_complete :
    Waiter → Bool → (ℕ → String → Call Resource) → String → Option Err
unfolding get_delay_and_poll_interval
wait_for_connector_offsets_update_to_complete w is_test polls display_name = w.wait_for_state (
    state_change_conf (state_pending ∷ []) (state_applied ∷ [])
      (λ n. connector_offset_update_status (polls n) display_name) hour
      (get_delay_and_poll_interval 30 15 is_test))

unfoldable pub wait_for_connector_to_provision :
    Waiter → Bool → (ℕ → GetConnector) → String → String → String → Option Err
unfolding get_delay_and_poll_interval
wait_for_connector_to_provision w is_test polls display_name environment_id cluster_id =
    w.wait_for_state (
      state_change_conf (state_provisioning ∷ state_degraded ∷ []) (state_running ∷ [])
        (λ n. connector_provision_status (polls n) display_name environment_id cluster_id)
        (24 * hour) (get_delay_and_poll_interval (3 * minute) minute is_test))

unfoldable pub wait_for_connector_to_change_status :
    Waiter
    → Bool
    → (ℕ → GetConnector)
    → (display_name environment_id cluster_id current_status target_status : String) → Option Err
unfolding get_delay_and_poll_interval
wait_for_connector_to_change_status w is_test polls display_name environment_id cluster_id
      current_status target_status =
    w.wait_for_state (
      state_change_conf (current_status ∷ []) (target_status ∷ [])
        (λ n. connector_update_status (polls n) display_name environment_id cluster_id) hour
        (get_delay_and_poll_interval 30 minute is_test))

abbrev mirror_topic_pending : String → String → List String
mirror_topic_pending current_status target_status =
    if str_eq target_status state_stopped
    then current_status ∷ state_pending_stopped ∷ []
    else current_status ∷ []

unfoldable pub wait_for_kafka_mirror_topic_to_change_status :
    Waiter
    → Bool
    → (ℕ → (cluster_id link_name mirror_topic_name : String) → Call Resource)
    → (cluster_id link_name mirror_topic_name current_status target_status : String) → Option Err
unfolding get_delay_and_poll_interval
wait_for_kafka_mirror_topic_to_change_status w is_test polls cluster_id link_name mirror_topic_name
      current_status target_status =
    w.wait_for_state (
      state_change_conf (mirror_topic_pending current_status target_status) (target_status ∷ [])
        (λ n. kafka_mirror_topic_update_status (polls n) cluster_id link_name mirror_topic_name)
        (5 * minute) (get_delay_and_poll_interval 2 minute is_test))
