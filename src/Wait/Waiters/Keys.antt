-- ===== src/Wait/Waiters/Keys.antt =====
-- utils_wait.go: waiting for a new API key to be accepted.
use terraform_provider_confl.Base.{ℕ, ◌*◌, Bool, Option, [], ◌∷◌, String}
use terraform_provider_confl.Wait.{Err}
use terraform_provider_confl.Wait.States.{state_done, state_in_progress}
use terraform_provider_confl.Wait.Sdk.{Waiter}
use terraform_provider_confl.Wait.Waiters.{minute, get_delay_and_poll_interval, state_change_conf}
use terraform_provider_confl.Wait.Sync.{
  Listed, kafka_api_key_sync_status, cloud_api_key_sync_status, tableflow_api_key_sync_status,
  global_api_key_sync_status,
}

unfoldable pub wait_for_created_kafka_api_key_to_sync :
    Waiter → Bool → (ℕ → Listed) → String → Option Err
unfolding get_delay_and_poll_interval
wait_for_created_kafka_api_key_to_sync w is_test polls cluster_api_key =
    let (delay, poll_interval) = get_delay_and_poll_interval minute minute is_test in
    w.wait_for_state (record {
      pending = state_in_progress ∷ [];
      target = state_done ∷ [];
      refresh = λ n. kafka_api_key_sync_status (polls n) cluster_api_key;
      timeout = 20 * minute;
      delay = delay;
      poll_interval = poll_interval;
      continuous_target_occurence = 2;
    })

unfoldable pub wait_for_created_cloud_api_key_to_sync :
    Waiter → Bool → (ℕ → String → String → Listed) → String → String → Option Err
unfolding get_delay_and_poll_interval
wait_for_created_cloud_api_key_to_sync w is_test polls api_key api_secret = w.wait_for_state (
    state_change_conf (state_in_progress ∷ []) (state_done ∷ [])
      (λ n. cloud_api_key_sync_status (polls n) api_key api_secret) (20 * minute)
      (get_delay_and_poll_interval 15 minute is_test))

unfoldable pub wait_for_created_global_api_key_to_sync :
    Waiter → Bool → (ℕ → String → String → Listed) → String → String → Option Err
unfolding get_delay_and_poll_interval
wait_for_created_global_api_key_to_sync w is_test polls api_key api_secret = w.wait_for_state (
    state_change_conf (state_in_progress ∷ []) (state_done ∷ [])
      (λ n. global_api_key_sync_status (polls n) api_key api_secret) (20 * minute)
      (get_delay_and_poll_interval 15 minute is_test))

unfoldable pub wait_for_created_tableflow_api_key_to_sync :
    Waiter → Bool → (ℕ → Listed) → String → Option Err
unfolding get_delay_and_poll_interval
wait_for_created_tableflow_api_key_to_sync w is_test polls tableflow_api_key = w.wait_for_state (
    state_change_conf (state_in_progress ∷ []) (state_done ∷ [])
      (λ n. tableflow_api_key_sync_status (polls n) tableflow_api_key) (20 * minute)
      (get_delay_and_poll_interval 10 30 is_test))
