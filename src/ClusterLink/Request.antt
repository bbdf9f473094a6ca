-- ===== src/ClusterLink/Request.antt =====
-- internal/provider/resource_cluster_link.go: the request that creates a link, and the cluster that it is
-- sent to. The settings of a request are the list of a map's entries.
use terraform_provider_confl.Base.{false, none, some, List, [], ◌∷◌, ◌++◌, String, codes}
use terraform_provider_confl.Kafka.{Text}
use terraform_provider_confl.Kafka.AclHandlers.{KafkaRestClient}
use terraform_provider_confl.ClusterLink.Links.{
  LinkMode, bidirectional, destination, source, ConnectionMode, inbound, outbound, ClusterBlock,
  LinkData, LinkToken, LinkProvider, key_in, secret_in,
}

abbrev pub Configs : Type 0
Configs = List (String × Text)

unfoldable pub plain_login : (key secret : Text) → Text
plain_login key secret =
    codes "org.apache.kafka.common.security.plain.PlainLoginModule required username="
    ++ 34 ∷ key
    ++ 34 ∷ codes " password="
    ++ 34 ∷ secret
    ++ 34 ∷ codes ";"

unfoldable pub oauth_login : LinkToken → (cluster_id : Text) → Text
oauth_login token cluster_id =
    codes "org.apache.kafka.common.security.oauthbearer.OAuthBearerLoginModule required clientId='"
    ++ token.client_id
    ++ codes "' scope='"
    ++ token.scope
    ++ codes "' clientSecret='"
    ++ token.client_secret
    ++ codes "' extension_logicalCluster='"
    ++ cluster_id
    ++ codes "' extension_identityPoolId='"
    ++ token.identity_pool_id
    ++ codes "';"

-- How the link logs in to a cluster, and to the local one.
unfoldable pub login_configs : LinkProvider → ClusterBlock → Configs
unfolding plain_login oauth_login
login_configs none b =
    ("sasl.mechanism", codes "PLAIN")
    ∷ ("sasl.jaas.config", plain_login (key_in b.credentials) (secret_in b.credentials))
    ∷ []
login_configs (some token) b =
    ("sasl.mechanism", codes "OAUTHBEARER")
    ∷ ("sasl.oauthbearer.token.endpoint.url", token.token_url)
    ∷ (
      "sasl.login.callback.handler.class",
      codes "org.apache.kafka.common.security.oauthbearer.OAuthBearerLoginCallbackHandler",
    )
    ∷ ("sasl.jaas.config", oauth_login token b.id)
    ∷ []

unfoldable pub local_login_configs : LinkProvider → ClusterBlock → Configs
unfolding plain_login oauth_login
local_login_configs none b =
    ("local.sasl.mechanism", codes "PLAIN")
    ∷ ("local.sasl.jaas.config", plain_login (key_in b.credentials) (secret_in b.credentials))
    ∷ []
local_login_configs (some token) b =
    ("local.sasl.mechanism", codes "OAUTHBEARER")
    ∷ ("local.sasl.oauthbearer.token.endpoint.url", token.token_url)
    ∷ (
      "local.sasl.login.callback.handler.class",
      codes "org.apache.kafka.common.security.oauthbearer.OAuthBearerLoginCallbackHandler",
    )
    ∷ ("local.sasl.jaas.config", oauth_login token b.id)
    ∷ []

-- `constructCloudConfigFor…`, for each pair of modes.
unfoldable pub construct_cloud_config :
    LinkProvider → LinkData → LinkMode → ConnectionMode → Configs
unfolding login_configs local_login_configs
construct_cloud_config client d bidirectional outbound =
    ("connection.mode", codes "OUTBOUND")
      ∷ ("remote.link.connection.mode", codes "INBOUND")
      ∷ ("link.mode", codes "BIDIRECTIONAL")
      ∷ ("bootstrap.servers", d.remote_cluster.bootstrap_endpoint)
      ∷ ("local.security.protocol", codes "SASL_SSL")
      ∷ ("security.protocol", codes "SASL_SSL")
      ∷ local_login_configs client d.local_cluster
    ++ login_configs client d.remote_cluster
construct_cloud_config client d bidirectional inbound =
    ("connection.mode", codes "INBOUND")
    ∷ ("link.mode", codes "BIDIRECTIONAL")
    ∷ ("bootstrap.servers", d.remote_cluster.bootstrap_endpoint)
    ∷ []
construct_cloud_config client d destination outbound =
    ("connection.mode", codes "OUTBOUND")
    ∷ ("link.mode", codes "DESTINATION")
    ∷ ("bootstrap.servers", d.source_cluster.bootstrap_endpoint)
    ∷ ("security.protocol", codes "SASL_SSL")
    ∷ login_configs client d.source_cluster
construct_cloud_config client d destination inbound =
    ("connection.mode", codes "INBOUND")
    ∷ ("link.mode", codes "DESTINATION")
    ∷ ("bootstrap.servers", d.source_cluster.bootstrap_endpoint)
    ∷ []
construct_cloud_config client d source connection_mode =
    ("connection.mode", codes "OUTBOUND")
      ∷ ("link.mode", codes "SOURCE")
      ∷ ("local.security.protocol", codes "SASL_SSL")
      ∷ ("security.protocol", codes "SASL_SSL")
      ∷ ("bootstrap.servers", d.destination_cluster.bootstrap_endpoint)
      ∷ local_login_configs client d.source_cluster
    ++ login_configs client d.destination_cluster

pub data OtherCluster : Type 0 where
  remote_cluster_id source_cluster_id destination_cluster_id : Text → OtherCluster

-- `CreateLinkRequestData`
pub record CreateLinkRequest : Type 0 where
  pub other : OtherCluster
  pub configs : Configs

abbrev other_cluster : LinkData → LinkMode → OtherCluster
other_cluster d bidirectional = remote_cluster_id d.remote_cluster.id
other_cluster d destination = source_cluster_id d.source_cluster.id
other_cluster d source = destination_cluster_id d.destination_cluster.id

unfoldable pub construct_cluster_link_request : LinkProvider → LinkData → CreateLinkRequest
unfolding construct_cloud_config
construct_cluster_link_request client d = record {
  other = other_cluster d d.link_mode;
  configs = construct_cloud_config client d d.link_mode d.connection_mode ++ d.configs;
}

-- The cluster that the request is sent to.
abbrev pub own_cluster : LinkData → LinkMode → ClusterBlock
own_cluster d bidirectional = d.local_cluster
own_cluster d destination = d.destination_cluster
own_cluster d source = d.source_cluster

abbrev pub link_rest_client : ClusterBlock → KafkaRestClient
link_rest_client b = record {
  rest_endpoint = b.rest_endpoint;
  cluster_id = b.id;
  cluster_api_key = key_in b.credentials;
  cluster_api_secret = secret_in b.credentials;
  is_cluster_id_set_in_provider_block = false;
  is_metadata_set_in_provider_block = false;
}

unfoldable pub create_kafka_rest_client_for_cluster_link : LinkData → KafkaRestClient
create_kafka_rest_client_for_cluster_link d = link_rest_client (own_cluster d d.link_mode)
