-- ===== src/Statement/Settings.antt =====
-- internal/provider/resource_flink_statement.go: the endpoint, the ids and the credentials of
-- a handler, from the provider block, from the environment, or from the resource.
use terraform_provider_confl.Base.{Bool, not, ◌&&◌, String, str_eq, if◌then◌else◌}
use terraform_provider_confl.Kafka.Settings.{Setting, given, missing}

-- What the handlers read of `Client`.
pub record FlinkProvider : Type 0 where
  pub is_flink_metadata_set : Bool
  pub is_oauth_enabled : Bool
  pub flink_principal_id : String
  pub flink_organization_id : String
  pub flink_environment_id : String
  pub flink_compute_pool_id : String
  pub flink_api_key : String
  pub flink_api_secret : String
  pub flink_rest_endpoint : String

-- What the handlers read of a resource's blocks.
pub record FlinkBlocks : Type 0 where
  pub organization_id : String
  pub environment_id : String
  pub compute_pool_id : String
  pub principal_id : String
  pub rest_endpoint : String
  pub api_key : String
  pub api_secret : String

-- `os.Getenv`
abbrev pub FlinkEnvironment : Type 0
FlinkEnvironment = String → String

-- `s != ""`
abbrev pub not_empty : String → Bool
not_empty s = not (str_eq s "")

abbrev pub given_if_not_empty : String → Setting String
given_if_not_empty s = if not_empty s then given s else missing

-- `getEnv`
unfoldable pub get_flink_env : FlinkEnvironment → String → String → String
get_flink_env env key default_value =
    let value = env key in if not_empty value then value else default_value

unfoldable pub extract_flink_rest_endpoint :
    FlinkEnvironment → FlinkProvider → FlinkBlocks → Bool → Setting String
unfolding get_flink_env
extract_flink_rest_endpoint env client d is_import_operation =
    if client.is_flink_metadata_set
    then given client.flink_rest_endpoint
    else if is_import_operation
    then given_if_not_empty (get_flink_env env "IMPORT_FLINK_REST_ENDPOINT" "")
    else given_if_not_empty d.rest_endpoint

unfoldable pub extract_flink_organization_id :
    FlinkEnvironment → FlinkProvider → FlinkBlocks → Bool → Setting String
unfolding get_flink_env
extract_flink_organization_id env client d is_import_operation =
    if client.is_flink_metadata_set
    then given client.flink_organization_id
    else if is_import_operation
    then given_if_not_empty (get_flink_env env "IMPORT_CONFLUENT_ORGANIZATION_ID" "")
    else given_if_not_empty d.organization_id

unfoldable pub extract_flink_environment_id :
    FlinkEnvironment → FlinkProvider → FlinkBlocks → Bool → Setting String
unfolding get_flink_env
extract_flink_environment_id env client d is_import_operation =
    if client.is_flink_metadata_set
    then given client.flink_environment_id
    else if is_import_operation
    then given_if_not_empty (get_flink_env env "IMPORT_CONFLUENT_ENVIRONMENT_ID" "")
    else given_if_not_empty d.environment_id

unfoldable pub extract_flink_compute_pool_id :
    FlinkEnvironment → FlinkProvider → FlinkBlocks → Bool → Setting String
unfolding get_flink_env
extract_flink_compute_pool_id env client d is_import_operation =
    if client.is_flink_metadata_set
    then given client.flink_compute_pool_id
    else if is_import_operation
    then given_if_not_empty (get_flink_env env "IMPORT_FLINK_COMPUTE_POOL_ID" "")
    else given d.compute_pool_id

unfoldable pub extract_flink_principal_id :
    FlinkEnvironment → FlinkProvider → FlinkBlocks → Bool → Setting String
unfolding get_flink_env
extract_flink_principal_id env client d is_import_operation =
    if client.is_flink_metadata_set
    then given client.flink_principal_id
    else if is_import_operation
    then given_if_not_empty (get_flink_env env "IMPORT_FLINK_PRINCIPAL_ID" "")
    else given_if_not_empty d.principal_id

unfoldable pub extract_flink_api_key_and_api_secret :
    FlinkEnvironment → FlinkProvider → FlinkBlocks → Bool → Setting (String × String)
unfolding get_flink_env
extract_flink_api_key_and_api_secret env client d is_import_operation =
    if client.is_oauth_enabled
    then given ("", "")
    else if client.is_flink_metadata_set
    then given (client.flink_api_key, client.flink_api_secret)
    else if is_import_operation
    then (let key = get_flink_env env "IMPORT_FLINK_API_KEY" "" in
        let secret = get_flink_env env "IMPORT_FLINK_API_SECRET" "" in
        if not_empty key && not_empty secret then given (key, secret) else missing)
    else if not_empty d.api_key
    then given (d.api_key, d.api_secret)
    else missing
