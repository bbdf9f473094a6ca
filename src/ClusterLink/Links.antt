-- ===== src/ClusterLink/Links.antt =====
-- internal/provider/resource_cluster_link.go: a link, and the check of its blocks before it is created. The
-- SDK's schema lets no other modes pass.
use terraform_provider_confl.Base.{
  Bool, true, false, not, ◌&&◌, Option, none, some, List, [], String, if◌then◌else◌,
}
use terraform_provider_confl.Kafka.{Text}
use terraform_provider_confl.Kafka.Settings.{is_set}

pub data LinkMode : Type 0 where
  bidirectional destination source : LinkMode

pub data ConnectionMode : Type 0 where
  inbound outbound : ConnectionMode

-- A block of a Kafka cluster, with the key and the secret of its credentials.
pub record ClusterBlock : Type 0 where
  pub id : Text
  pub rest_endpoint : Text
  pub bootstrap_endpoint : Text
  pub credentials : Option (Text × Text)

-- What is read of the resource; the strings of a block that is left out are empty.
pub record LinkData : Type 0 where
  pub link_mode : LinkMode
  pub connection_mode : ConnectionMode
  pub source_cluster : ClusterBlock
  pub destination_cluster : ClusterBlock
  pub local_cluster : ClusterBlock
  pub remote_cluster : ClusterBlock
  pub configs : List (String × Text)

-- What is read of `OAuthToken`.
pub record LinkToken : Type 0 where
  pub identity_pool_id : Text
  pub client_id : Text
  pub client_secret : Text
  pub scope : Text
  pub token_url : Text

-- What is read of `Client`: with OAuth, the token.
abbrev pub LinkProvider : Type 0
LinkProvider = Option LinkToken

abbrev pub is_oauth_enabled : LinkProvider → Bool
is_oauth_enabled none = false
is_oauth_enabled (some token) = true

-- `extractStringValueFromNestedBlock`, for the key and for the secret.
abbrev pub key_in : Option (Text × Text) → Text
key_in none = []
key_in (some c) = c.0

abbrev pub secret_in : Option (Text × Text) → Text
secret_in none = []
secret_in (some c) = c.1

-- The length of the block's list is not 0.
abbrev pub has_some : Option (Text × Text) → Bool
has_some none = false
has_some (some c) = true

pub data LinkError : Type 0 where
  credentials_missing bootstrap_endpoint_missing rest_endpoint_missing : ClusterBlock → LinkError
  credentials_not_allowed : ClusterBlock → LinkError
  source_initiated_inbound : LinkError

-- `if failed { return err }`
unfoldable pub refuse_if : Bool → LinkError → Option LinkError → Option LinkError
refuse_if b e rest = if b then some e else rest

unfoldable pub validate_cluster_link_input_by_link_mode_and_connection_mode :
    LinkData → LinkMode → ConnectionMode → (is_oauth_enabled : Bool) → Option LinkError
validate_cluster_link_input_by_link_mode_and_connection_mode d bidirectional connection_mode oauth =
    refuse_if (not oauth && not (has_some d.local_cluster.credentials))
      (credentials_missing d.local_cluster)
      (refuse_if (not (is_set d.remote_cluster.bootstrap_endpoint))
        (bootstrap_endpoint_missing d.remote_cluster)
        (refuse_if (not (is_set d.local_cluster.rest_endpoint))
          (rest_endpoint_missing d.local_cluster) none))
validate_cluster_link_input_by_link_mode_and_connection_mode d destination outbound oauth =
    refuse_if (not oauth && not (has_some d.destination_cluster.credentials))
      (credentials_missing d.destination_cluster)
      (refuse_if (not (is_set d.source_cluster.bootstrap_endpoint))
        (bootstrap_endpoint_missing d.source_cluster)
        (refuse_if (not (is_set d.destination_cluster.rest_endpoint))
          (rest_endpoint_missing d.destination_cluster)
          (refuse_if (not oauth && not (has_some d.source_cluster.credentials))
            (credentials_missing d.source_cluster) none)))
validate_cluster_link_input_by_link_mode_and_connection_mode d destination inbound oauth =
    refuse_if (not oauth && not (has_some d.destination_cluster.credentials))
      (credentials_missing d.destination_cluster)
      (refuse_if (not (is_set d.source_cluster.bootstrap_endpoint))
        (bootstrap_endpoint_missing d.source_cluster)
        (refuse_if (not (is_set d.destination_cluster.rest_endpoint))
          (rest_endpoint_missing d.destination_cluster)
          (refuse_if (has_some d.source_cluster.credentials)
            (credentials_not_allowed d.source_cluster) none)))
validate_cluster_link_input_by_link_mode_and_connection_mode d source outbound oauth =
    refuse_if (not oauth && not (has_some d.destination_cluster.credentials))
      (credentials_missing d.destination_cluster)
      (refuse_if (not (is_set d.source_cluster.rest_endpoint))
        (rest_endpoint_missing d.source_cluster)
        (refuse_if (not (is_set d.destination_cluster.bootstrap_endpoint))
          (bootstrap_endpoint_missing d.destination_cluster)
          (refuse_if (not oauth && not (has_some d.source_cluster.credentials))
            (credentials_missing d.source_cluster) none)))
validate_cluster_link_input_by_link_mode_and_connection_mode d source inbound oauth =
    refuse_if (not oauth && not (has_some d.destination_cluster.credentials))
      (credentials_missing d.destination_cluster) (some source_initiated_inbound)

unfoldable pub validate_cluster_link_input : LinkData → (is_oauth_enabled : Bool) → Option LinkError
unfolding validate_cluster_link_input_by_link_mode_and_connection_mode
validate_cluster_link_input d oauth =
    validate_cluster_link_input_by_link_mode_and_connection_mode d d.link_mode d.connection_mode
      oauth
