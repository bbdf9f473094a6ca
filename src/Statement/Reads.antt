-- ===== src/Statement/Reads.antt =====
-- internal/provider/resource_flink_statement.go: how a resource is set from a statement. Setting an
-- attribute does not fail.
use terraform_provider_confl.Base.{ℕ, not, ◌&&◌, Option, none, some, List, String, if◌then◌else◌}
use terraform_provider_confl.Http.{is_non_kafka_rest_api_resource_not_found}
use terraform_provider_confl.Http.Descriptive.{create_descriptive_error}
use terraform_provider_confl.Statement.Settings.{FlinkBlocks}
use terraform_provider_confl.Statement.Properties.{
  extract_nonsensitive_properties, extract_flink_properties, create_flink_statement_id,
}
use terraform_provider_confl.Statement.Gateway.{
  FlinkStatement, FlinkData, FlinkRestClient, FlinkLog, FlinkApi, api, FlinkHandled,
}

abbrev pub set_flink_id : String → FlinkData → FlinkData
set_flink_id id d = record d { id = id }

-- What the provider block sets is not copied into the resource; `setKafkaCredentials`.
unfoldable pub set_flink_blocks : FlinkRestClient → FlinkStatement → FlinkBlocks → FlinkBlocks
set_flink_blocks c s blocks =
    if not c.is_metadata_set_in_provider_block
    then record {
      organization_id = s.organization_id;
      environment_id = s.environment_id;
      compute_pool_id = s.compute_pool_id;
      principal_id = s.principal;
      rest_endpoint = c.rest_endpoint;
      api_key = if c.has_external_access_token then blocks.api_key else c.flink_api_key;
      api_secret = if c.has_external_access_token then blocks.api_secret else c.flink_api_secret;
    }
    else blocks

unfoldable pub set_flink_statement_attributes :
    FlinkRestClient → FlinkStatement → FlinkData → FlinkData
unfolding set_flink_blocks extract_nonsensitive_properties extract_flink_properties
    create_flink_statement_id
set_flink_statement_attributes c s d =
    let properties = extract_nonsensitive_properties s.properties in
    record d {
      id = create_flink_statement_id s.environment_id s.compute_pool_id s.name;
      statement_name = s.name;
      statement = s.statement;
      properties = properties;
      properties_sensitive = (extract_flink_properties d.properties_sensitive properties).1;
      stopped = s.stopped;
      latest_offsets = s.latest_offsets;
      latest_offsets_timestamp = s.latest_offsets_timestamp;
      blocks = set_flink_blocks c s d.blocks;
    }

-- The error is described for the log before the response is looked at.
unfoldable pub read_flink_statement_and_set_attributes :
    (List ℕ → Option (List ℕ))
    → FlinkApi
    → FlinkLog
    → FlinkRestClient
    → (statement_name : String) → FlinkData
    → FlinkHandled
unfolding is_non_kafka_rest_api_resource_not_found create_descriptive_error
    set_flink_statement_attributes
read_flink_statement_and_set_attributes gunzip world log c statement_name d =
    let reply = world.get log c statement_name in
    elim reply.err [
      | some err ↦
          let resp = (create_descriptive_error gunzip err reply.resp).1 in
          if is_non_kafka_rest_api_resource_not_found resp && not d.is_new_resource
          then (none, log, set_flink_id "" d)
          else (some (api err), log, d)
      | none ↦ (none, log, set_flink_statement_attributes c reply.value d)
    ]
