-- ===== src/Sources/Lookup.antt =====
-- internal/provider/data_source_*.go: finding the item that has a name among those that are loaded.
use terraform_provider_confl.Base.{
  ℕ, ◌+◌, Bool, Option, none, some, List, [], ◌∷◌, String, str_eq, ltb, if◌then◌else◌,
}
use terraform_provider_confl.Sources.Pages.{LoadError, Loaded, all, failed, panicked, exhausted}

-- `found` is the item whose attributes are set. `nothing` is the end without an error and without
-- an attribute.
pub data Looked {ℓ} (A : Type ℓ) : Type ℓ where
  found : A → Looked A
  nothing multiple missing : Looked A
  load_failed : LoadError → Looked A
  load_panicked load_exhausted : Looked A

module _ {ℓ} {A : Type ℓ} (name_of : A → String) (name : String) where
  -- The loop that counts the items with the name.
  unfoldable pub count_named : List A → ℕ
  count_named [] = 0
  count_named (a ∷ items) = (if str_eq (name_of a) name then 1 else 0) + count_named items

  unfoldable pub has_multiple : List A → Bool
  unfolding count_named
  has_multiple items = ltb 1 (count_named items)

  -- The loop that returns at the first item with the name.
  unfoldable pub first_named : List A → Option A
  first_named [] = none
  first_named (a ∷ items) = if str_eq (name_of a) name then some a else first_named items

  unfoldable pub has_multiple_certificate_pools_with_display_name : List A → Bool
  unfolding has_multiple
  has_multiple_certificate_pools_with_display_name = has_multiple

  unfoldable pub org_has_multiple_envs_with_target_display_name : List A → Bool
  unfolding has_multiple
  org_has_multiple_envs_with_target_display_name = has_multiple

  unfoldable pub org_has_multiple_flink_artifacts_with_target_display_name : List A → Bool
  unfolding has_multiple
  org_has_multiple_flink_artifacts_with_target_display_name = has_multiple

  unfoldable pub has_multiple_compute_pools_with_display_name : List A → Bool
  unfolding has_multiple
  has_multiple_compute_pools_with_display_name = has_multiple

  unfoldable pub org_has_multiple_flink_connections_with_target_display_name : List A → Bool
  unfolding has_multiple
  org_has_multiple_flink_connections_with_target_display_name = has_multiple

  unfoldable pub has_multiple_group_mappings_with_display_name : List A → Bool
  unfolding has_multiple
  has_multiple_group_mappings_with_display_name = has_multiple

  unfoldable pub has_multiple_identity_pools_with_display_name : List A → Bool
  unfolding has_multiple
  has_multiple_identity_pools_with_display_name = has_multiple

  unfoldable pub has_multiple_identity_providers_with_display_name : List A → Bool
  unfolding has_multiple
  has_multiple_identity_providers_with_display_name = has_multiple

  unfoldable pub org_has_multiple_kafka_clusters_with_target_display_name : List A → Bool
  unfolding has_multiple
  org_has_multiple_kafka_clusters_with_target_display_name = has_multiple

  unfoldable pub org_has_multiple_ksql_clusters_with_target_display_name : List A → Bool
  unfolding has_multiple
  org_has_multiple_ksql_clusters_with_target_display_name = has_multiple

  unfoldable pub org_has_multiple_networks_with_target_display_name : List A → Bool
  unfolding has_multiple
  org_has_multiple_networks_with_target_display_name = has_multiple

  unfoldable pub has_multiple_network_link_services_with_display_name : List A → Bool
  unfolding has_multiple
  has_multiple_network_link_services_with_display_name = has_multiple

  unfoldable pub org_has_multiple_peerings_with_target_display_name : List A → Bool
  unfolding has_multiple
  org_has_multiple_peerings_with_target_display_name = has_multiple

  unfoldable pub org_has_multiple_private_link_accesses_with_target_display_name : List A → Bool
  unfolding has_multiple
  org_has_multiple_private_link_accesses_with_target_display_name = has_multiple

  unfoldable pub org_has_multiple_provider_integrations_with_target_display_name : List A → Bool
  unfolding has_multiple
  org_has_multiple_provider_integrations_with_target_display_name = has_multiple

  unfoldable pub has_multiple_schema_registry_clusters_with_display_name : List A → Bool
  unfolding has_multiple
  has_multiple_schema_registry_clusters_with_display_name = has_multiple

  unfoldable pub org_has_multiple_transit_gateway_attachments_with_target_display_name :
      List A → Bool
  unfolding has_multiple
  org_has_multiple_transit_gateway_attachments_with_target_display_name = has_multiple

  unfoldable pub org_has_multiple_users_with_target_fullname : List A → Bool
  unfolding has_multiple
  org_has_multiple_users_with_target_fullname = has_multiple

  unfoldable pub org_has_multiple_users_with_target_email : List A → Bool
  unfolding has_multiple
  org_has_multiple_users_with_target_email = has_multiple

-- What follows a load: an error of the load is an error of the read.
abbrev pub after_load {ℓ} : {A : Type ℓ} → Loaded A → (List A → Looked A) → Looked A
after_load (all items) next = next items
after_load (failed e) next = load_failed e
after_load panicked next = load_panicked
after_load exhausted next = load_exhausted

abbrev pub found_or {ℓ} : {A : Type ℓ} → Looked A → Option A → Looked A
found_or otherwise none = otherwise
found_or otherwise (some a) = found a

-- The test for several, then the loop; `otherwise` is what follows the loop.
unfoldable pub look_up {ℓ} :
    {A : Type ℓ}
    → (A → String)
    → String
    → (is_multiple : List A → Bool) → (otherwise : Looked A) → List A
    → Looked A
unfolding first_named
look_up name_of name is_multiple otherwise items =
    if is_multiple items then multiple else found_or otherwise (first_named name_of name items)

abbrev pub checked {ℓ} : {A : Type ℓ} → Bool → Option A → Looked A
checked is_multiple none = nothing
checked is_multiple (some a) = if is_multiple then multiple else found a

-- The test for several inside the loop, at the first item with the name.
unfoldable pub look_up_first {ℓ} :
    {A : Type ℓ} → (A → String) → String → (is_multiple : List A → Bool) → List A → Looked A
unfolding first_named
look_up_first name_of name is_multiple items =
    checked (is_multiple items) (first_named name_of name items)
