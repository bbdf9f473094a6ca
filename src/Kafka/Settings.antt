-- ===== src/Kafka/Settings.antt =====
-- internal/provider/resource_kafka_topic.go: the cluster, the endpoint and the credentials of
-- a handler, from the provider block, from the environment, or from the resource.
use terraform_provider_confl.Base.{Bool, true, false, ◌&&◌, [], ◌∷◌, String, if◌then◌else◌}
use terraform_provider_confl.Kafka.{Text}

-- `s != ""`
abbrev pub is_set : Text → Bool
is_set [] = false
is_set (b ∷ s) = true

-- What the handlers read of `Client`.
pub record Provider : Type 0 where
  pub is_kafka_cluster_id_set : Bool
  pub kafka_cluster_id : Text
  pub is_kafka_metadata_set : Bool
  pub kafka_rest_endpoint : Text
  pub kafka_api_key : Text
  pub kafka_api_secret : Text
  pub is_oauth_enabled : Bool

-- What the handlers read of a resource's blocks.
pub record Blocks : Type 0 where
  pub cluster_id : Text
  pub rest_endpoint : Text
  pub api_key : Text
  pub api_secret : Text

pub data Setting {ℓ} (A : Type ℓ) : Type ℓ where
  given : A → Setting A
  missing : Setting A

abbrev pub given_if_set : Text → Setting Text
given_if_set s = if is_set s then given s else missing

-- `os.Getenv`
abbrev pub Environment : Type 0
Environment = String → Text

unfoldable pub get_env : Environment → String → Text → Text
get_env env key default_value = let value = env key in if is_set value then value else default_value

unfoldable pub extract_kafka_cluster_id : Environment → Provider → Blocks → Bool → Setting Text
unfolding get_env
extract_kafka_cluster_id env client d is_import_operation =
    if client.is_kafka_cluster_id_set
    then given client.kafka_cluster_id
    else if is_import_operation
    then given_if_set (get_env env "IMPORT_KAFKA_ID" [])
    else given_if_set d.cluster_id

unfoldable pub extract_rest_endpoint : Environment → Provider → Blocks → Bool → Setting Text
unfolding get_env
extract_rest_endpoint env client d is_import_operation =
    if client.is_kafka_metadata_set
    then given client.kafka_rest_endpoint
    else if is_import_operation
    then given_if_set (get_env env "IMPORT_KAFKA_REST_ENDPOINT" [])
    else given_if_set d.rest_endpoint

unfoldable pub extract_cluster_api_key_and_api_secret :
    Environment → Provider → Blocks → Bool → Setting (Text × Text)
unfolding get_env
extract_cluster_api_key_and_api_secret env client d is_import_operation =
    if client.is_oauth_enabled
    then given ([], [])
    else if client.is_kafka_metadata_set
    then given (client.kafka_api_key, client.kafka_api_secret)
    else if is_import_operation
    then (let key = get_env env "IMPORT_KAFKA_API_KEY" [] in
        let secret = get_env env "IMPORT_KAFKA_API_SECRET" [] in
        if is_set key && is_set secret then given (key, secret) else missing)
    else if is_set d.api_key
    then given (d.api_key, d.api_secret)
    else missing
