-- ===== src/Schema/Settings.antt =====
-- internal/provider/resource_schema.go: the registry, the endpoint and the credentials of a handler,
-- from the provider block, from the environment, or from the resource.
use terraform_provider_confl.Base.{Bool, ◌&&◌, [], if◌then◌else◌}
use terraform_provider_confl.Kafka.{Text}
use terraform_provider_confl.Kafka.Settings.{
  is_set, Blocks, Setting, given, missing, given_if_set, Environment, get_env,
}

-- What the handlers read of `Client`.
pub record SchemaProvider : Type 0 where
  pub is_schema_registry_metadata_set : Bool
  pub schema_registry_rest_endpoint : Text
  pub schema_registry_cluster_id : Text
  pub schema_registry_api_key : Text
  pub schema_registry_api_secret : Text
  pub is_oauth_enabled : Bool

unfoldable pub extract_schema_registry_rest_endpoint :
    Environment → SchemaProvider → Blocks → Bool → Setting Text
unfolding get_env
extract_schema_registry_rest_endpoint env client d is_import_operation =
    if client.is_schema_registry_metadata_set
    then given client.schema_registry_rest_endpoint
    else if is_import_operation
    then given_if_set (get_env env "IMPORT_SCHEMA_REGISTRY_REST_ENDPOINT" [])
    else given_if_set d.rest_endpoint

unfoldable pub extract_schema_registry_cluster_api_key_and_api_secret :
    Environment → SchemaProvider → Blocks → Bool → Setting (Text × Text)
unfolding get_env
extract_schema_registry_cluster_api_key_and_api_secret env client d is_import_operation =
    if client.is_oauth_enabled
    then given ([], [])
    else if client.is_schema_registry_metadata_set
    then given (client.schema_registry_api_key, client.schema_registry_api_secret)
    else if is_import_operation
    then (let key = get_env env "IMPORT_SCHEMA_REGISTRY_API_KEY" [] in
        let secret = get_env env "IMPORT_SCHEMA_REGISTRY_API_SECRET" [] in
        if is_set key && is_set secret then given (key, secret) else missing)
    else if is_set d.api_key
    then given (d.api_key, d.api_secret)
    else missing

unfoldable pub extract_schema_registry_cluster_id :
    Environment → SchemaProvider → Blocks → Bool → Setting Text
unfolding get_env
extract_schema_registry_cluster_id env client d is_import_operation =
    if client.is_schema_registry_metadata_set
    then given client.schema_registry_cluster_id
    else if is_import_operation
    then given_if_set (get_env env "IMPORT_SCHEMA_REGISTRY_ID" [])
    else given_if_set d.cluster_id
