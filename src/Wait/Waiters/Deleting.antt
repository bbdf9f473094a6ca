-- ===== src/Wait/Waiters/Deleting.antt =====
-- utils_wait.go: waiting for resources to be gone.
use terraform_provider_confl.Base.{ℕ, ◌*◌, Bool, Option, List, [], ◌∷◌, String}
use terraform_provider_confl.Wait.{Call, Get, Err}
use terraform_provider_confl.Wait.States.{state_done, state_in_progress}
use terraform_provider_confl.Wait.Sdk.{Waiter}
use terraform_provider_confl.Wait.Waiters.{
  minute, hour, get_delay_and_poll_interval, networking_api_delete_timeout, state_change_conf,
}
use terraform_provider_confl.Wait.Flink.{GetStatement, GetTable}
use terraform_provider_confl.Wait.Deletion.{
  kafka_cluster_delete_status, kafka_topic_delete_status, kafka_mirror_topic_delete_status,
  cluster_link_delete_status, flink_statement_delete_status, flink_materialized_table_delete_status,
  dns_record_delete_status, access_point_delete_status, private_link_access_delete_status,
  plattc_delete_status, peering_delete_status, transit_gateway_attachment_delete_status,
}

-- `gunzip` is `gzip.NewReader` and `io.ReadAll`, for the raw body in the text of an error.
abbrev pub Deleter : Type 0
Deleter =
    (gunzip : List ℕ → Option (List ℕ)) → Waiter → Bool → (ℕ → Get) → String → String → Option Err

unfoldable pub wait_for_kafka_cluster_to_be_deleted : Deleter
unfolding get_delay_and_poll_interval
wait_for_kafka_cluster_to_be_deleted gunzip w is_test polls environment_id cluster_id =
    w.wait_for_state (
      state_change_conf (state_in_progress ∷ []) (state_done ∷ [])
        (λ n. kafka_cluster_delete_status gunzip (polls n) environment_id cluster_id) (30 * minute)
        (get_delay_and_poll_interval minute minute is_test))

unfoldable pub wait_for_dns_record_to_be_deleted : Deleter
unfolding get_delay_and_poll_interval
wait_for_dns_record_to_be_deleted gunzip w is_test polls environment_id id = w.wait_for_state (
    state_change_conf (state_in_progress ∷ []) (state_done ∷ [])
      (λ n. dns_record_delete_status gunzip (polls n) environment_id id)
      networking_api_delete_timeout (get_delay_and_poll_interval minute minute is_test))

unfoldable pub wait_for_access_point_to_be_deleted : Deleter
unfolding get_delay_and_poll_interval
wait_for_access_point_to_be_deleted gunzip w is_test polls environment_id id = w.wait_for_state (
    state_change_conf (state_in_progress ∷ []) (state_done ∷ [])
      (λ n. access_point_delete_status gunzip (polls n) environment_id id)
      networking_api_delete_timeout (get_delay_and_poll_interval minute minute is_test))

unfoldable pub wait_for_private_link_access_to_be_deleted : Deleter
unfolding get_delay_and_poll_interval
wait_for_private_link_access_to_be_deleted gunzip w is_test polls environment_id id =
    w.wait_for_state (
      state_change_conf (state_in_progress ∷ []) (state_done ∷ [])
        (λ n. private_link_access_delete_status gunzip (polls n) environment_id id)
        networking_api_delete_timeout (get_delay_and_poll_interval minute minute is_test))

unfoldable pub wait_for_private_link_attachment_connection_to_be_deleted : Deleter
unfolding get_delay_and_poll_interval
wait_for_private_link_attachment_connection_to_be_deleted gunzip w is_test polls environment_id id =
    w.wait_for_state (
      state_change_conf (state_in_progress ∷ []) (state_done ∷ [])
        (λ n. plattc_delete_status gunzip (polls n) environment_id id) networking_api_delete_timeout
        (get_delay_and_poll_interval minute minute is_test))

unfoldable pub wait_for_peering_to_be_deleted : Deleter
unfolding get_delay_and_poll_interval
wait_for_peering_to_be_deleted gunzip w is_test polls environment_id id = w.wait_for_state (
    state_change_conf (state_in_progress ∷ []) (state_done ∷ [])
      (λ n. peering_delete_status gunzip (polls n) environment_id id) networking_api_delete_timeout
      (get_delay_and_poll_interval minute minute is_test))

unfoldable pub wait_for_transit_gateway_attachment_to_be_deleted : Deleter
unfolding get_delay_and_poll_interval
wait_for_transit_gateway_attachment_to_be_deleted gunzip w is_test polls environment_id id =
    w.wait_for_state (
      state_change_conf (state_in_progress ∷ []) (state_done ∷ [])
        (λ n. transit_gateway_attachment_delete_status gunzip (polls n) environment_id id)
        networking_api_delete_timeout (get_delay_and_poll_interval minute minute is_test))

unfoldable pub wait_for_kafka_topic_to_be_deleted :
    Waiter
    → Bool
    → (ℕ → (cluster_id topic_name : String) → Call (Unit {0}))
    → String
    → String
    → Option Err
unfolding get_delay_and_poll_interval
wait_for_kafka_topic_to_be_deleted w is_test polls cluster_id topic_name = w.wait_for_state (
    state_change_conf (state_in_progress ∷ []) (state_done ∷ [])
      (λ n. kafka_topic_delete_status (polls n) cluster_id topic_name) hour
      (get_delay_and_poll_interval 10 minute is_test))

unfoldable pub wait_for_kafka_mirror_topic_to_be_deleted :
    Waiter
    → Bool
    → (ℕ → (cluster_id link_name mirror_topic_name : String) → Call (Unit {0}))
    → String
    → String
    → String
    → Option Err
unfolding get_delay_and_poll_interval
wait_for_kafka_mirror_topic_to_be_deleted w is_test polls cluster_id link_name mirror_topic_name =
    w.wait_for_state (
      state_change_conf (state_in_progress ∷ []) (state_done ∷ [])
        (λ n. kafka_mirror_topic_delete_status (polls n) cluster_id link_name mirror_topic_name)
        hour (get_delay_and_poll_interval 10 minute is_test))

unfoldable pub wait_for_cluster_link_to_be_deleted :
    Waiter
    → Bool
    → (ℕ → (cluster_id link_name : String) → Call (Unit {0}))
    → String
    → String
    → Option Err
unfolding get_delay_and_poll_interval
wait_for_cluster_link_to_be_deleted w is_test polls cluster_id link_name = w.wait_for_state (
    state_change_conf (state_in_progress ∷ []) (state_done ∷ [])
      (λ n. cluster_link_delete_status (polls n) cluster_id link_name) hour
      (get_delay_and_poll_interval 10 minute is_test))

unfoldable pub wait_for_flink_statement_to_be_deleted :
    (List ℕ → Option (List ℕ)) → Waiter → Bool → (ℕ → GetStatement) → String → Option Err
unfolding get_delay_and_poll_interval
wait_for_flink_statement_to_be_deleted gunzip w is_test polls statement_name = w.wait_for_state (
    state_change_conf (state_in_progress ∷ []) (state_done ∷ [])
      (λ n. flink_statement_delete_status gunzip (polls n) statement_name) (20 * minute)
      (get_delay_and_poll_interval 10 10 is_test))

unfoldable pub wait_for_flink_materialized_table_to_be_deleted :
    (List ℕ → Option (List ℕ))
    → Waiter
    → Bool
    → (ℕ → GetTable)
    → String
    → String
    → String
    → String
    → ℕ
    → Option Err
unfolding get_delay_and_poll_interval
wait_for_flink_materialized_table_to_be_deleted gunzip w is_test polls org environment kafka name
      timeout =
    w.wait_for_state (
      state_change_conf (state_in_progress ∷ []) (state_done ∷ [])
        (λ n. flink_materialized_table_delete_status gunzip (polls n) org environment kafka name)
        timeout (get_delay_and_poll_interval 10 10 is_test))
