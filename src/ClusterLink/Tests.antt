-- ===== src/ClusterLink/Tests.antt =====
-- The theorem on cluster links, at concrete ones.
use terraform_provider_confl.Base.{◌≡◌, refl, false, none, some, [], ◌∷◌, Option, String, codes}
use terraform_provider_confl.Kafka.{Text}
use terraform_provider_confl.ClusterLink.Links.{
  bidirectional, destination, source, LinkMode, inbound, outbound, ClusterBlock, LinkData,
  refuse_if, validate_cluster_link_input,
}
use terraform_provider_confl.ClusterLink.Request.{
  plain_login, construct_cluster_link_request, create_kafka_rest_client_for_cluster_link,
}
use terraform_provider_confl.Wait.{Call}
use terraform_provider_confl.ClusterLink.Reads.{
  LinkState, LinkApi, set_cluster_blocks, cluster_link_read,
}
use terraform_provider_confl.ClusterLink.Undrifted
use terraform_provider_confl.ClusterLink.Undrifted.{SameBlocks}
use terraform_provider_confl.ClusterLink.Complete
use terraform_provider_confl.ClusterLink.Complete.{value_of, Complete}

abbrev block : String → Option (Text × Text) → ClusterBlock
block id credentials = record {
  id = codes id;
  rest_endpoint = codes "https://";
  bootstrap_endpoint = codes "SASL_SSL://";
  credentials = credentials;
}

abbrev link : LinkMode → LinkData
link mode = record {
  link_mode = mode;
  connection_mode = outbound;
  source_cluster = block "lkc-1" (some (codes "key-1", codes "secret-1"));
  destination_cluster = block "lkc-2" (some (codes "key-2", codes "secret-2"));
  local_cluster = block "lkc-3" (some (codes "key-3", codes "secret-3"));
  remote_cluster = block "lkc-4" none;
  configs = ("acl.sync.ms", codes "5100") ∷ [];
}

construct_cluster_link_request-Complete_example :
    Complete source outbound
      (create_kafka_rest_client_for_cluster_link (link source))
      (construct_cluster_link_request none (link source)).configs
unfolding validate_cluster_link_input refuse_if
construct_cluster_link_request-Complete_example =
    Complete.construct_cluster_link_request-Complete (link source) (refl, refl) (refl, refl)
      (refl, refl) refl

-- A bidirectional link passes without credentials of its remote cluster, and logs in without them.
remote_login_is_empty :
    (validate_cluster_link_input (link bidirectional) false ≡ none)
    × (value_of "sasl.jaas.config"
          (construct_cluster_link_request none (link bidirectional)).configs
        ≡ some (plain_login [] []))
unfolding validate_cluster_link_input refuse_if construct_cluster_link_request
remote_login_is_empty = (refl, refl)

abbrev answer_of : {A : Type 0} → A → Call A
answer_of a = record { value = a; resp = none; err = none }

-- A server that has every link.
abbrev linked : LinkApi
linked = record {
  create = λ log. λ c. λ name. λ q. answer_of tt;
  get = λ log. λ c. λ name. answer_of (record { link_name = name; cluster_link_id = codes "Az" });
  list_configs = λ log. λ c. λ name. answer_of [];
}

abbrev state : LinkMode → LinkState
state mode = record {
  id = codes "lkc-1/l";
  is_new_resource = false;
  link_name = codes "l";
  cluster_link_id = codes "Az";
  link = link mode;
}

cluster_link_read-SameBlocks_example :
    ((cluster_link_read linked [] (state destination)).0 ≡ none)
    × SameBlocks (cluster_link_read linked [] (state destination)).2.link (link destination)
unfolding validate_cluster_link_input refuse_if
cluster_link_read-SameBlocks_example =
    Undrifted.cluster_link_read-SameBlocks linked [] (state destination) false (refl, refl)
      (refl, refl) (refl, refl) tt tt refl refl refl

-- A bidirectional inbound link with credentials of its remote cluster passes, and a read drops them.
abbrev drifting : LinkData
drifting = record {
  link_mode = bidirectional;
  connection_mode = inbound;
  source_cluster = block "lkc-1" none;
  destination_cluster = block "lkc-2" none;
  local_cluster = block "lkc-3" (some (codes "key-3", codes "secret-3"));
  remote_cluster = block "lkc-4" (some (codes "key-4", codes "secret-4"));
  configs = [];
}

remote_credentials_dropped :
    (validate_cluster_link_input drifting false ≡ none)
    × ((set_cluster_blocks bidirectional inbound drifting).remote_cluster.credentials ≡ none)
unfolding validate_cluster_link_input refuse_if set_cluster_blocks
remote_credentials_dropped = (refl, refl)
