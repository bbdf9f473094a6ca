-- ===== src/Sources/Loads.antt =====
-- internal/provider/data_source_*.go: the `load…` functions. Their other arguments (the client, the
-- filters) are those of the call that lists, and are part of the answers.
use terraform_provider_confl.Base.{ℕ, Option, [], String}
use terraform_provider_confl.Sources.Pages.{Nullable, Answer, Answers, Loaded, load_pages}

module _ {ℓ} {A : Type ℓ} (query : String → Option String) (fuel : ℕ) where
  unfoldable pub load_certificate_pools : Answers A → Loaded A
  unfolding load_pages
  load_certificate_pools answers = load_pages query fuel answers "" []

  unfoldable pub load_endpoints : Answers A → Loaded A
  unfolding load_pages
  load_endpoints answers = load_pages query fuel answers "" []

  unfoldable pub load_environments : Answers A → Loaded A
  unfolding load_pages
  load_environments answers = load_pages query fuel answers "" []

  unfoldable pub load_flink_artifacts : Answers A → Loaded A
  unfolding load_pages
  load_flink_artifacts answers = load_pages query fuel answers "" []

  unfoldable pub load_compute_pools : Answers A → Loaded A
  unfolding load_pages
  load_compute_pools answers = load_pages query fuel answers "" []

  unfoldable pub load_gateways : Answers A → Loaded A
  unfolding load_pages
  load_gateways answers = load_pages query fuel answers "" []

  unfoldable pub load_group_mappings : Answers A → Loaded A
  unfolding load_pages
  load_group_mappings answers = load_pages query fuel answers "" []

  unfoldable pub load_identity_pools : Answers A → Loaded A
  unfolding load_pages
  load_identity_pools answers = load_pages query fuel answers "" []

  unfoldable pub load_identity_providers : Answers A → Loaded A
  unfolding load_pages
  load_identity_providers answers = load_pages query fuel answers "" []

  unfoldable pub load_ip_addresses : Answers A → Loaded A
  unfolding load_pages
  load_ip_addresses answers = load_pages query fuel answers "" []

  unfoldable pub load_kafka_clusters : Answers A → Loaded A
  unfolding load_pages
  load_kafka_clusters answers = load_pages query fuel answers "" []

  unfoldable pub load_ksql_clusters : Answers A → Loaded A
  unfolding load_pages
  load_ksql_clusters answers = load_pages query fuel answers "" []

  unfoldable pub load_networks : Answers A → Loaded A
  unfolding load_pages
  load_networks answers = load_pages query fuel answers "" []

  unfoldable pub load_network_link_services : Answers A → Loaded A
  unfolding load_pages
  load_network_link_services answers = load_pages query fuel answers "" []

  unfoldable pub load_peerings : Answers A → Loaded A
  unfolding load_pages
  load_peerings answers = load_pages query fuel answers "" []

  unfoldable pub load_private_link_accesses : Answers A → Loaded A
  unfolding load_pages
  load_private_link_accesses answers = load_pages query fuel answers "" []

  unfoldable pub load_provider_integrations : Answers A → Loaded A
  unfolding load_pages
  load_provider_integrations answers = load_pages query fuel answers "" []

  unfoldable pub load_schema_registry_clusters : Answers A → Loaded A
  unfolding load_pages
  load_schema_registry_clusters answers = load_pages query fuel answers "" []

  unfoldable pub load_service_accounts : Answers A → Loaded A
  unfolding load_pages
  load_service_accounts answers = load_pages query fuel answers "" []

  unfoldable pub load_transit_gateway_attachments : Answers A → Loaded A
  unfolding load_pages
  load_transit_gateway_attachments answers = load_pages query fuel answers "" []

  unfoldable pub load_users : Answers A → Loaded A
  unfolding load_pages
  load_users answers = load_pages query fuel answers "" []

-- Flink's metadata has a pointer in place of a nullable string, which `NewNullableString` of its
-- client wraps; `wrap` is that function.
abbrev pub FlinkAnswers {ℓ} : Type ℓ → Type ℓ
FlinkAnswers A = (page_token : String) → Answer A × Option String

abbrev pub wrapped {ℓ} : {A : Type ℓ} → (Option String → Nullable) → FlinkAnswers A → Answers A
wrapped wrap answers page_token = record {
  page = record {
    data_of = (answers page_token).0.page.data_of;
    next = wrap (answers page_token).1;
  };
  err = (answers page_token).0.err;
}

module _ {ℓ} {A : Type ℓ} (wrap : Option String → Nullable) (query : String → Option String)
    (fuel : ℕ) where
  unfoldable pub load_flink_connections : FlinkAnswers A → Loaded A
  unfolding load_pages
  load_flink_connections answers = load_pages query fuel (wrapped wrap answers) "" []

  unfoldable pub load_materialized_tables : FlinkAnswers A → Loaded A
  unfolding load_pages
  load_materialized_tables answers = load_pages query fuel (wrapped wrap answers) "" []
