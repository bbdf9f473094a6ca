-- ===== src/Sources/Unique.antt =====
-- What the reads of Reads find: the one item that has the name.
use terraform_provider_confl.Base.{
  ℕ, suc, ◌≤◌, ◌≡◌, refl, ap, Option, none, some, List, [], ◌∷◌, String, str_eq, length, true, ltb,
  if◌then◌else◌, arith, inl, inr, Bool-cases,
}
use terraform_provider_confl.Sources.Pages.{Nullable, Answers, all}
use terraform_provider_confl.Sources.Loads.{FlinkAnswers, wrapped, load_flink_connections}
use terraform_provider_confl.Sources.Complete.{
  Chain, concat, Source, certificate_pools, environments, flink_artifacts, compute_pools,
  group_mappings, identity_pools, identity_providers, kafka_clusters, ksql_clusters, networks,
  network_link_services, peerings, private_link_accesses, provider_integrations,
  schema_registry_clusters, transit_gateway_attachments, users, load_of, load-Chain,
  load_pages-Chain,
}
use terraform_provider_confl.Sources.Lookup.{
  Looked, found, nothing, multiple, missing, found_or, checked, look_up, look_up_first, count_named,
  has_multiple, first_named, has_multiple_certificate_pools_with_display_name,
  org_has_multiple_envs_with_target_display_name,
  org_has_multiple_flink_artifacts_with_target_display_name,
  has_multiple_compute_pools_with_display_name, has_multiple_group_mappings_with_display_name,
  has_multiple_identity_pools_with_display_name, has_multiple_identity_providers_with_display_name,
  org_has_multiple_kafka_clusters_with_target_display_name,
  org_has_multiple_ksql_clusters_with_target_display_name,
  org_has_multiple_networks_with_target_display_name,
  has_multiple_network_link_services_with_display_name,
  org_has_multiple_peerings_with_target_display_name,
  org_has_multiple_private_link_accesses_with_target_display_name,
  org_has_multiple_provider_integrations_with_target_display_name,
  has_multiple_schema_registry_clusters_with_display_name,
  org_has_multiple_transit_gateway_attachments_with_target_display_name,
  org_has_multiple_users_with_target_fullname, org_has_multiple_users_with_target_email,
  org_has_multiple_flink_connections_with_target_display_name,
}
use terraform_provider_confl.Sources.Reads.{
  certificate_pool_data_source_read_using_display_name,
  environment_data_source_read_using_display_name,
  flink_artifact_data_source_read_using_display_name,
  compute_pool_data_source_read_using_display_name,
  group_mapping_data_source_read_using_display_name,
  identity_pool_data_source_read_using_display_name,
  identity_provider_data_source_read_using_display_name, kafka_data_source_read_using_display_name,
  ksql_data_source_read_using_display_name, network_data_source_read_using_display_name,
  network_link_service_data_source_read_using_display_name,
  peering_data_source_read_using_display_name,
  private_link_access_data_source_read_using_display_name,
  provider_integration_data_source_read_using_display_name,
  schema_registry_cluster_data_source_read_using_display_name,
  transit_gateway_attachment_data_source_read_using_display_name,
  user_data_source_read_using_full_name, user_data_source_read_using_email,
  connection_data_source_read,
}

ltb_many : (n : ℕ) → ltb 1 (suc (suc n)) ≡ true
ltb_many n = ground arith

module _ {ℓ} {A : Type ℓ} where
  -- What a read by name promises of these items; `absent` is the outcome when there is none.
  abbrev pub verdict : (absent : Looked A) → List A → Looked A
  verdict absent [] = absent
  verdict absent (a ∷ []) = found a
  verdict absent (a ∷ b ∷ items) = multiple

  abbrev head : List A → Option A
  head [] = none
  head (a ∷ items) = some a

  verdict-found_or :
      (absent : Looked A) (matches : List A)
      → (if ltb 1 (length matches) then multiple else found_or absent (head matches))
        ≡ verdict absent matches
  verdict-found_or absent [] = refl
  verdict-found_or absent (a ∷ []) = refl
  verdict-found_or absent (a ∷ b ∷ matches) = rw (ltb_many (length matches)) refl

  verdict-checked :
      (matches : List A) → checked (ltb 1 (length matches)) (head matches) ≡ verdict nothing matches
  verdict-checked [] = refl
  verdict-checked (a ∷ []) = refl
  verdict-checked (a ∷ b ∷ matches) = rw (ltb_many (length matches)) refl

module _ {ℓ} {A : Type ℓ} (name_of : A → String) (name : String) where
  -- The items that have the name, in their order.
  abbrev pub named : List A → List A
  named [] = []
  named (a ∷ items) = if str_eq (name_of a) name then a ∷ named items else named items

  count_named_lem : (items : List A) → count_named name_of name items ≡ length (named items)
  unfolding count_named
  count_named_lem [] = refl
  count_named_lem (a ∷ items) = elim (Bool-cases (str_eq (name_of a) name)) [
    | inl hit ↦ rw (hit, count_named_lem items, count_named) (omega arith)
    | inr miss ↦ rw (miss, count_named_lem items, count_named) (omega arith)
  ]

  first_named_lem : (items : List A) → first_named name_of name items ≡ head (named items)
  unfolding first_named
  first_named_lem [] = refl
  first_named_lem (a ∷ items) = elim (Bool-cases (str_eq (name_of a) name)) [
    | inl hit ↦ rw (hit, first_named) refl
    | inr miss ↦ rw (miss, first_named) (first_named_lem items)
  ]

  has_multiple_lem :
      (items : List A) → has_multiple name_of name items ≡ ltb 1 (length (named items))
  unfolding has_multiple
  has_multiple_lem items = ap (ltb 1) (count_named_lem items)

  look_up_lem :
      (absent : Looked A) (items : List A)
      → look_up name_of name (has_multiple name_of name) absent items ≡ verdict absent (named items)
  unfolding look_up
  look_up_lem absent items =
      rw (has_multiple_lem items, first_named_lem items) (verdict-found_or absent (named items))

  look_up_first_lem :
      (items : List A)
      → look_up_first name_of name (has_multiple name_of name) items ≡ verdict nothing (named items)
  unfolding look_up_first
  look_up_first_lem items =
      rw (has_multiple_lem items, first_named_lem items) (verdict-checked (named items))

-- The reads whose loader is one of Complete.
pub data NamedRead : Type 0 where
  by_certificate_pool by_environment by_flink_artifact by_compute_pool by_group_mapping
        by_identity_pool by_identity_provider by_kafka by_ksql by_network by_network_link_service
        by_peering by_private_link_access by_provider_integration by_schema_registry_cluster
        by_transit_gateway_attachment by_user_full_name by_user_email :
      NamedRead

abbrev pub source_of : NamedRead → Source
source_of by_certificate_pool = certificate_pools
source_of by_environment = environments
source_of by_flink_artifact = flink_artifacts
source_of by_compute_pool = compute_pools
source_of by_group_mapping = group_mappings
source_of by_identity_pool = identity_pools
source_of by_identity_provider = identity_providers
source_of by_kafka = kafka_clusters
source_of by_ksql = ksql_clusters
source_of by_network = networks
source_of by_network_link_service = network_link_services
source_of by_peering = peerings
source_of by_private_link_access = private_link_accesses
source_of by_provider_integration = provider_integrations
source_of by_schema_registry_cluster = schema_registry_clusters
source_of by_transit_gateway_attachment = transit_gateway_attachments
source_of by_user_full_name = users
source_of by_user_email = users

-- Two of the reads end without an error when no item has the name.
abbrev pub absent_of {ℓ} : {A : Type ℓ} → NamedRead → Looked A
absent_of by_flink_artifact = nothing
absent_of by_provider_integration = nothing
absent_of _ = missing

abbrev pub read_of {ℓ} :
    NamedRead
    → {A : Type ℓ} → (A → String)
    → (String → Option String)
    → ℕ
    → Answers A
    → String
    → Looked A
read_of by_certificate_pool = certificate_pool_data_source_read_using_display_name
read_of by_environment = environment_data_source_read_using_display_name
read_of by_flink_artifact = flink_artifact_data_source_read_using_display_name
read_of by_compute_pool = compute_pool_data_source_read_using_display_name
read_of by_group_mapping = group_mapping_data_source_read_using_display_name
read_of by_identity_pool = identity_pool_data_source_read_using_display_name
read_of by_identity_provider = identity_provider_data_source_read_using_display_name
read_of by_kafka = kafka_data_source_read_using_display_name
read_of by_ksql = ksql_data_source_read_using_display_name
read_of by_network = network_data_source_read_using_display_name
read_of by_network_link_service = network_link_service_data_source_read_using_display_name
read_of by_peering = peering_data_source_read_using_display_name
read_of by_private_link_access = private_link_access_data_source_read_using_display_name
read_of by_provider_integration = provider_integration_data_source_read_using_display_name
read_of by_schema_registry_cluster = schema_registry_cluster_data_source_read_using_display_name
read_of by_transit_gateway_attachment =
    transit_gateway_attachment_data_source_read_using_display_name
read_of by_user_full_name = user_data_source_read_using_full_name
read_of by_user_email = user_data_source_read_using_email

read_of_lem :
    {A : Type 0} (read : NamedRead) (name_of : A → String) (query : String → Option String)
    (fuel : ℕ) (answers : Answers A) (name : String) (items : List A)
    → load_of (source_of read) query fuel answers ≡ all items
    → read_of read name_of query fuel answers name
      ≡ verdict (absent_of read) (named name_of name items)
unfolding certificate_pool_data_source_read_using_display_name
    environment_data_source_read_using_display_name
    flink_artifact_data_source_read_using_display_name
    compute_pool_data_source_read_using_display_name
    group_mapping_data_source_read_using_display_name
    identity_pool_data_source_read_using_display_name
    identity_provider_data_source_read_using_display_name kafka_data_source_read_using_display_name
    ksql_data_source_read_using_display_name network_data_source_read_using_display_name
    network_link_service_data_source_read_using_display_name
    peering_data_source_read_using_display_name
    private_link_access_data_source_read_using_display_name
    provider_integration_data_source_read_using_display_name
    schema_registry_cluster_data_source_read_using_display_name
    transit_gateway_attachment_data_source_read_using_display_name
    user_data_source_read_using_full_name user_data_source_read_using_email
    has_multiple_certificate_pools_with_display_name org_has_multiple_envs_with_target_display_name
    org_has_multiple_flink_artifacts_with_target_display_name
    has_multiple_compute_pools_with_display_name has_multiple_group_mappings_with_display_name
    has_multiple_identity_pools_with_display_name has_multiple_identity_providers_with_display_name
    org_has_multiple_kafka_clusters_with_target_display_name
    org_has_multiple_ksql_clusters_with_target_display_name
    org_has_multiple_networks_with_target_display_name
    has_multiple_network_link_services_with_display_name
    org_has_multiple_peerings_with_target_display_name
    org_has_multiple_private_link_accesses_with_target_display_name
    org_has_multiple_provider_integrations_with_target_display_name
    has_multiple_schema_registry_clusters_with_display_name
    org_has_multiple_transit_gateway_attachments_with_target_display_name
    org_has_multiple_users_with_target_fullname org_has_multiple_users_with_target_email
read_of_lem by_certificate_pool name_of query fuel answers name items h =
    rw (h, certificate_pool_data_source_read_using_display_name)
      (look_up_lem name_of name (absent_of by_certificate_pool) items)
read_of_lem by_environment name_of query fuel answers name items h =
    rw (h, environment_data_source_read_using_display_name)
      (look_up_lem name_of name (absent_of by_environment) items)
read_of_lem by_flink_artifact name_of query fuel answers name items h =
    rw (h, flink_artifact_data_source_read_using_display_name)
      (look_up_first_lem name_of name items)
read_of_lem by_compute_pool name_of query fuel answers name items h =
    rw (h, compute_pool_data_source_read_using_display_name)
      (look_up_lem name_of name (absent_of by_compute_pool) items)
read_of_lem by_group_mapping name_of query fuel answers name items h =
    rw (h, group_mapping_data_source_read_using_display_name)
      (look_up_lem name_of name (absent_of by_group_mapping) items)
read_of_lem by_identity_pool name_of query fuel answers name items h =
    rw (h, identity_pool_data_source_read_using_display_name)
      (look_up_lem name_of name (absent_of by_identity_pool) items)
read_of_lem by_identity_provider name_of query fuel answers name items h =
    rw (h, identity_provider_data_source_read_using_display_name)
      (look_up_lem name_of name (absent_of by_identity_provider) items)
read_of_lem by_kafka name_of query fuel answers name items h =
    rw (h, kafka_data_source_read_using_display_name)
      (look_up_lem name_of name (absent_of by_kafka) items)
read_of_lem by_ksql name_of query fuel answers name items h =
    rw (h, ksql_data_source_read_using_display_name)
      (look_up_lem name_of name (absent_of by_ksql) items)
read_of_lem by_network name_of query fuel answers name items h =
    rw (h, network_data_source_read_using_display_name)
      (look_up_lem name_of name (absent_of by_network) items)
read_of_lem by_network_link_service name_of query fuel answers name items h =
    rw (h, network_link_service_data_source_read_using_display_name)
      (look_up_lem name_of name (absent_of by_network_link_service) items)
read_of_lem by_peering name_of query fuel answers name items h =
    rw (h, peering_data_source_read_using_display_name)
      (look_up_lem name_of name (absent_of by_peering) items)
read_of_lem by_private_link_access name_of query fuel answers name items h =
    rw (h, private_link_access_data_source_read_using_display_name)
      (look_up_lem name_of name (absent_of by_private_link_access) items)
read_of_lem by_provider_integration name_of query fuel answers name items h =
    rw (h, provider_integration_data_source_read_using_display_name)
      (look_up_lem name_of name (absent_of by_provider_integration) items)
read_of_lem by_schema_registry_cluster name_of query fuel answers name items h =
    rw (h, schema_registry_cluster_data_source_read_using_display_name)
      (look_up_lem name_of name (absent_of by_schema_registry_cluster) items)
read_of_lem by_transit_gateway_attachment name_of query fuel answers name items h =
    rw (h, transit_gateway_attachment_data_source_read_using_display_name)
      (look_up_lem name_of name (absent_of by_transit_gateway_attachment) items)
read_of_lem by_user_full_name name_of query fuel answers name items h =
    rw (h, user_data_source_read_using_full_name)
      (look_up_lem name_of name (absent_of by_user_full_name) items)
read_of_lem by_user_email name_of query fuel answers name items h =
    rw (h, user_data_source_read_using_email)
      (look_up_lem name_of name (absent_of by_user_email) items)

-- If the server has the pages of a chain from the first one on, and there are as many units of fuel
-- as pages, then a read by a name ends, and its outcome depends on the items with that name on all
-- pages alone: if there is one, it is found; if there are several, the read fails; if there is none,
-- it fails with another error, but for the artifacts and the provider integrations, where it ends
-- without an error and sets nothing.
pub read_of-Chain :
    {A : Type 0} (read : NamedRead) (name_of : A → String) (query : String → Option String)
    (fuel : ℕ) (answers : Answers A) (name : String) (pages : List (List A))
    → Chain query answers "" pages
    → length pages ≤ fuel
    → read_of read name_of query fuel answers name
      ≡ verdict (absent_of read) (named name_of name (concat pages))
read_of-Chain read name_of query fuel answers name pages chain enough =
    read_of_lem read name_of query fuel answers name (concat pages)
      (load-Chain (source_of read) query fuel answers pages chain enough)

-- If the server has the pages of a chain from the first one on, its pointers wrapped, and there are
-- as many units of fuel as pages, then the read of a Flink connection finds the one connection that
-- has the name, fails if several have it, and ends without an error and without setting an
-- attribute if none has it.
connection_data_source_read-Chain :
    {A : Type 0} (name_of : A → String) (wrap : Option String → Nullable)
    (query : String → Option String) (fuel : ℕ) (answers : FlinkAnswers A) (name : String)
    (pages : List (List A))
    → Chain query (wrapped wrap answers) "" pages
    → length pages ≤ fuel
    → connection_data_source_read name_of wrap query fuel answers name
      ≡ verdict nothing (named name_of name (concat pages))
unfolding connection_data_source_read load_flink_connections
    org_has_multiple_flink_connections_with_target_display_name
connection_data_source_read-Chain name_of wrap query fuel answers name pages chain enough =
    rw (load_pages-Chain query (wrapped wrap answers) fuel "" pages [] chain enough)
      (look_up_first_lem name_of name (concat pages))
