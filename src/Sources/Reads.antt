-- ===== src/Sources/Reads.antt =====
-- internal/provider/data_source_*.go: the data sources that read an item by its name. `name_of` is the
-- getter of the name.
use terraform_provider_confl.Base.{ℕ, Option, String}
use terraform_provider_confl.Sources.Pages.{Nullable, Answers}
use terraform_provider_confl.Sources.Loads.{
  FlinkAnswers, load_certificate_pools, load_environments, load_flink_artifacts, load_compute_pools,
  load_flink_connections, load_group_mappings, load_identity_pools, load_identity_providers,
  load_kafka_clusters, load_ksql_clusters, load_networks, load_network_link_services, load_peerings,
  load_private_link_accesses, load_provider_integrations, load_schema_registry_clusters,
  load_transit_gateway_attachments, load_users,
}
use terraform_provider_confl.Sources.Lookup.{
  Looked, nothing, missing, after_load, look_up, look_up_first,
  has_multiple_certificate_pools_with_display_name, org_has_multiple_envs_with_target_display_name,
  org_has_multiple_flink_artifacts_with_target_display_name,
  has_multiple_compute_pools_with_display_name,
  org_has_multiple_flink_connections_with_target_display_name,
  has_multiple_group_mappings_with_display_name, has_multiple_identity_pools_with_display_name,
  has_multiple_identity_providers_with_display_name,
  org_has_multiple_kafka_clusters_with_target_display_name,
  org_has_multiple_ksql_clusters_with_target_display_name,
  org_has_multiple_networks_with_target_display_name,
  has_multiple_network_link_services_with_display_name,
  org_has_multiple_peerings_with_target_display_name,
  org_has_multiple_private_link_accesses_with_target_display_name,
  org_has_multiple_provider_integrations_with_target_display_name,
  has_multiple_schema_registry_clusters_with_display_name,
  org_has_multiple_transit_gateway_attachments_with_target_display_name,
  org_has_multiple_users_with_target_fullname, org_has_multiple_users_with_target_email,
}

module _ {ℓ} {A : Type ℓ} (name_of : A → String) (query : String → Option String) (fuel : ℕ) where
  unfoldable pub certificate_pool_data_source_read_using_display_name :
      Answers A → String → Looked A
  unfolding load_certificate_pools has_multiple_certificate_pools_with_display_name look_up
  certificate_pool_data_source_read_using_display_name answers display_name =
      after_load (load_certificate_pools query fuel answers) (
        look_up name_of display_name
          (has_multiple_certificate_pools_with_display_name name_of display_name) missing)

  unfoldable pub environment_data_source_read_using_display_name : Answers A → String → Looked A
  unfolding load_environments org_has_multiple_envs_with_target_display_name look_up
  environment_data_source_read_using_display_name answers display_name =
      after_load (load_environments query fuel answers) (
        look_up name_of display_name
          (org_has_multiple_envs_with_target_display_name name_of display_name) missing)

  unfoldable pub flink_artifact_data_source_read_using_display_name : Answers A → String → Looked A
  unfolding load_flink_artifacts org_has_multiple_flink_artifacts_with_target_display_name
      look_up_first
  flink_artifact_data_source_read_using_display_name answers display_name =
      after_load (load_flink_artifacts query fuel answers) (
        look_up_first name_of display_name
          (org_has_multiple_flink_artifacts_with_target_display_name name_of display_name))

  unfoldable pub compute_pool_data_source_read_using_display_name : Answers A → String → Looked A
  unfolding load_compute_pools has_multiple_compute_pools_with_display_name look_up
  compute_pool_data_source_read_using_display_name answers display_name =
      after_load (load_compute_pools query fuel answers) (
        look_up name_of display_name
          (has_multiple_compute_pools_with_display_name name_of display_name) missing)

  unfoldable pub group_mapping_data_source_read_using_display_name : Answers A → String → Looked A
  unfolding load_group_mappings has_multiple_group_mappings_with_display_name look_up
  group_mapping_data_source_read_using_display_name answers display_name =
      after_load (load_group_mappings query fuel answers) (
        look_up name_of display_name
          (has_multiple_group_mappings_with_display_name name_of display_name) missing)

  unfoldable pub identity_pool_data_source_read_using_display_name : Answers A → String → Looked A
  unfolding load_identity_pools has_multiple_identity_pools_with_display_name look_up
  identity_pool_data_source_read_using_display_name answers display_name =
      after_load (load_identity_pools query fuel answers) (
        look_up name_of display_name
          (has_multiple_identity_pools_with_display_name name_of display_name) missing)

  unfoldable pub identity_provider_data_source_read_using_display_name :
      Answers A → String → Looked A
  unfolding load_identity_providers has_multiple_identity_providers_with_display_name look_up
  identity_provider_data_source_read_using_display_name answers display_name =
      after_load (load_identity_providers query fuel answers) (
        look_up name_of display_name
          (has_multiple_identity_providers_with_display_name name_of display_name) missing)

  unfoldable pub kafka_data_source_read_using_display_name : Answers A → String → Looked A
  unfolding load_kafka_clusters org_has_multiple_kafka_clusters_with_target_display_name look_up
  kafka_data_source_read_using_display_name answers display_name =
      after_load (load_kafka_clusters query fuel answers) (
        look_up name_of display_name
          (org_has_multiple_kafka_clusters_with_target_display_name name_of display_name) missing)

  unfoldable pub ksql_data_source_read_using_display_name : Answers A → String → Looked A
  unfolding load_ksql_clusters org_has_multiple_ksql_clusters_with_target_display_name look_up
  ksql_data_source_read_using_display_name answers display_name =
      after_load (load_ksql_clusters query fuel answers) (
        look_up name_of display_name
          (org_has_multiple_ksql_clusters_with_target_display_name name_of display_name) missing)

  unfoldable pub network_data_source_read_using_display_name : Answers A → String → Looked A
  unfolding load_networks org_has_multiple_networks_with_target_display_name look_up
  network_data_source_read_using_display_name answers display_name =
      after_load (load_networks query fuel answers) (
        look_up name_of display_name
          (org_has_multiple_networks_with_target_display_name name_of display_name) missing)

  unfoldable pub network_link_service_data_source_read_using_display_name :
      Answers A → String → Looked A
  unfolding load_network_link_services has_multiple_network_link_services_with_display_name look_up
  network_link_service_data_source_read_using_display_name answers display_name =
      after_load (load_network_link_services query fuel answers) (
        look_up name_of display_name
          (has_multiple_network_link_services_with_display_name name_of display_name) missing)

  unfoldable pub peering_data_source_read_using_display_name : Answers A → String → Looked A
  unfolding load_peerings org_has_multiple_peerings_with_target_display_name look_up
  peering_data_source_read_using_display_name answers display_name =
      after_load (load_peerings query fuel answers) (
        look_up name_of display_name
          (org_has_multiple_peerings_with_target_display_name name_of display_name) missing)

  unfoldable pub private_link_access_data_source_read_using_display_name :
      Answers A → String → Looked A
  unfolding load_private_link_accesses
      org_has_multiple_private_link_accesses_with_target_display_name look_up
  private_link_access_data_source_read_using_display_name answers display_name =
      after_load (load_private_link_accesses query fuel answers) (
        look_up name_of display_name
          (org_has_multiple_private_link_accesses_with_target_display_name name_of display_name)
          missing)

  unfoldable pub provider_integration_data_source_read_using_display_name :
      Answers A → String → Looked A
  unfolding load_provider_integrations
      org_has_multiple_provider_integrations_with_target_display_name look_up
  provider_integration_data_source_read_using_display_name answers display_name =
      after_load (load_provider_integrations query fuel answers) (
        look_up name_of display_name
          (org_has_multiple_provider_integrations_with_target_display_name name_of display_name)
          nothing)

  unfoldable pub schema_registry_cluster_data_source_read_using_display_name :
      Answers A → String → Looked A
  unfolding load_schema_registry_clusters has_multiple_schema_registry_clusters_with_display_name
      look_up
  schema_registry_cluster_data_source_read_using_display_name answers display_name =
      after_load (load_schema_registry_clusters query fuel answers) (
        look_up name_of display_name
          (has_multiple_schema_registry_clusters_with_display_name name_of display_name) missing)

  unfoldable pub transit_gateway_attachment_data_source_read_using_display_name :
      Answers A → String → Looked A
  unfolding load_transit_gateway_attachments
      org_has_multiple_transit_gateway_attachments_with_target_display_name look_up
  transit_gateway_attachment_data_source_read_using_display_name answers display_name =
      after_load (load_transit_gateway_attachments query fuel answers) (
        look_up name_of display_name
          (org_has_multiple_transit_gateway_attachments_with_target_display_name name_of
            display_name)
          missing)

  unfoldable pub user_data_source_read_using_full_name : Answers A → String → Looked A
  unfolding load_users org_has_multiple_users_with_target_fullname look_up
  user_data_source_read_using_full_name answers full_name =
      after_load (load_users query fuel answers) (
        look_up name_of full_name (org_has_multiple_users_with_target_fullname name_of full_name)
          missing)

  unfoldable pub user_data_source_read_using_email : Answers A → String → Looked A
  unfolding load_users org_has_multiple_users_with_target_email look_up
  user_data_source_read_using_email answers email =
      after_load (load_users query fuel answers)
        (look_up name_of email (org_has_multiple_users_with_target_email name_of email) missing)

-- The pointer of Flink's metadata is wrapped by `wrap`.
unfoldable pub connection_data_source_read {ℓ} :
    {A : Type ℓ}
    → (A → String)
    → (Option String → Nullable)
    → (String → Option String)
    → ℕ
    → FlinkAnswers A
    → String
    → Looked A
unfolding load_flink_connections org_has_multiple_flink_connections_with_target_display_name
    look_up_first
connection_data_source_read name_of wrap query fuel answers connection_name =
    after_load (load_flink_connections wrap query fuel answers) (
      look_up_first name_of connection_name
        (org_has_multiple_flink_connections_with_target_display_name name_of connection_name))
