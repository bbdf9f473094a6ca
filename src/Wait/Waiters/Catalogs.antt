-- ===== src/Wait/Waiters/Catalogs.antt =====
-- utils_wait.go: waiting for tags, business metadata and schema exporters.
use terraform_provider_confl.Base.{ℕ, ◌*◌, Option, [], ◌∷◌, String}
use terraform_provider_confl.Wait.{Call, Err}
use terraform_provider_confl.Wait.States.{state_provisioning, state_ready}
use terraform_provider_confl.Wait.Sdk.{Waiter}
use terraform_provider_confl.Wait.Waiters.{minute, hour, state_change_conf}
use terraform_provider_confl.Wait.Catalog.{
  GetBindings, tag_provision_status, business_metadata_provision_status,
  tag_binding_provision_status, business_metadata_binding_provision_status,
  schema_exporter_provision_status,
}

-- These set no delay and one poll interval for every mode.
abbrev data_catalog_timeout : ℕ
data_catalog_timeout = minute

unfoldable pub wait_for_tag_to_provision :
    Waiter → (ℕ → String → Call (Unit {0})) → String → Option Err
wait_for_tag_to_provision w polls name = w.wait_for_state (
    state_change_conf (state_provisioning ∷ []) (state_ready ∷ [])
      (λ n. tag_provision_status (polls n) name) data_catalog_timeout (0, 1))

unfoldable pub wait_for_business_metadata_to_provision :
    Waiter → (ℕ → String → Call (Unit {0})) → String → Option Err
wait_for_business_metadata_to_provision w polls name = w.wait_for_state (
    state_change_conf (state_provisioning ∷ []) (state_ready ∷ [])
      (λ n. business_metadata_provision_status (polls n) name) data_catalog_timeout (0, 1))

unfoldable pub wait_for_tag_binding_to_provision :
    Waiter → (ℕ → GetBindings) → String → String → String → Option Err
wait_for_tag_binding_to_provision w polls name entity_name entity_type = w.wait_for_state (
    state_change_conf (state_provisioning ∷ []) (state_ready ∷ [])
      (λ n. tag_binding_provision_status (polls n) name entity_name entity_type)
      data_catalog_timeout (0, 1))

unfoldable pub wait_for_business_metadata_binding_to_provision :
    Waiter → (ℕ → GetBindings) → String → String → String → Option Err
wait_for_business_metadata_binding_to_provision w polls name entity_name entity_type =
    w.wait_for_state (
      state_change_conf (state_provisioning ∷ []) (state_ready ∷ [])
        (λ n. business_metadata_binding_provision_status (polls n) name entity_name entity_type)
        data_catalog_timeout (0, 1))

unfoldable pub wait_for_schema_exporter_to_provision :
    Waiter → (ℕ → String → Call String) → String → Option Err
wait_for_schema_exporter_to_provision w polls name = w.wait_for_state (
    state_change_conf (state_provisioning ∷ []) (state_ready ∷ [])
      (λ n. schema_exporter_provision_status (polls n) name) (12 * hour) (0, 30))
