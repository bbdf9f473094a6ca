-- ===== src/ClusterLink/Reads.antt =====
-- internal/provider/resource_cluster_link.go: how a link is created and read. A request's JSON is for the log, and
-- building it does not fail. The wait after a call is left out. A call is answered by the requests before
-- it, the latest first.
use terraform_provider_confl.Base.{
  Bool, not, ◌&&◌, Option, none, some, List, [], ◌∷◌, ◌++◌, String, str_eq, one_of, if◌then◌else◌,
}
use terraform_provider_confl.Http.{status_not_found, response_has_expected_status_code}
use terraform_provider_confl.Http.Descriptive.{ApiError}
use terraform_provider_confl.Wait.{Call}
use terraform_provider_confl.Kafka.{Text}
use terraform_provider_confl.Kafka.Acl.{slash}
use terraform_provider_confl.Kafka.Settings.{is_set}
use terraform_provider_confl.Kafka.AclHandlers.{KafkaRestClient}
use terraform_provider_confl.ClusterLink.Links.{
  LinkMode, bidirectional, destination, ConnectionMode, inbound, outbound, ClusterBlock, LinkData,
  LinkProvider, is_oauth_enabled, key_in, secret_in, LinkError, validate_cluster_link_input,
}
use terraform_provider_confl.ClusterLink.Request.{
  Configs, CreateLinkRequest, construct_cluster_link_request,
  create_kafka_rest_client_for_cluster_link,
}

-- `schema.ResourceData`
pub record LinkState : Type 0 where
  pub id : Text
  pub is_new_resource : Bool
  pub link_name : Text
  pub cluster_link_id : Text
  pub link : LinkData

-- A setting that the API lists; an unset value is read as an empty one.
pub record LinkConfig : Type 0 where
  pub name : String
  pub source : String
  pub value : Text

-- `ListLinksResponseData`, as far as it is read.
pub record KafkaLink : Type 0 where
  pub link_name : Text
  pub cluster_link_id : Text

-- The requests that have been sent, with the name of the link.
abbrev pub LinkLog : Type 0
LinkLog = List (Text × CreateLinkRequest)

pub record LinkApi : Type 0 where
  pub create : LinkLog → KafkaRestClient → (link_name : Text) → CreateLinkRequest → Call (Unit {0})
  pub get : LinkLog → KafkaRestClient → (link_name : Text) → Call KafkaLink
  pub list_configs : LinkLog → KafkaRestClient → (link_name : Text) → Call (List LinkConfig)

pub data LinkFailure : Type 0 where
  invalid : LinkError → LinkFailure
  api configs_not_loaded : ApiError → LinkFailure

-- The error that a handler reports, the requests that it has sent, and the data as it leaves it.
abbrev pub LinkHandled : Type 0
LinkHandled = Option LinkFailure × LinkLog × LinkState

abbrev pub editable_cluster_link_settings : List String
editable_cluster_link_settings =
    "acl.filters" ∷ "acl.sync.enable" ∷ "acl.sync.ms" ∷ "auto.create.mirror.topics.enable"
    ∷ "auto.create.mirror.topics.filters" ∷ "cluster.link.prefix" ∷ "consumer.group.prefix.enable"
    ∷ "consumer.offset.group.filters" ∷ "consumer.offset.sync.enable" ∷ "consumer.offset.sync.ms"
    ∷ "mirror.start.offset.spec" ∷ "topic.config.sync.ms" ∷ "topic.config.sync.include" ∷ []

unfoldable pub load_cluster_link_configs : List LinkConfig → Configs
load_cluster_link_configs [] = []
load_cluster_link_configs (r ∷ configs) =
    let rest = load_cluster_link_configs configs in
    if one_of r.name editable_cluster_link_settings && str_eq r.source "DYNAMIC_CLUSTER_LINK_CONFIG"
    then (r.name, r.value) ∷ rest
    else rest

unfoldable pub build_optional_credential_block : (key secret : Text) → Option (Text × Text)
build_optional_credential_block key secret =
    if not (is_set key) && not (is_set secret) then none else some (key, secret)

-- A block as it is set from what was read of it, with its credentials or without.
abbrev pub set_again : ClusterBlock → ClusterBlock
set_again b = record b {
  credentials = build_optional_credential_block (key_in b.credentials) (secret_in b.credentials);
}

abbrev pub set_without : ClusterBlock → ClusterBlock
set_without b = record b { credentials = none }

unfoldable pub set_cluster_blocks : LinkMode → ConnectionMode → LinkData → LinkData
unfolding build_optional_credential_block
set_cluster_blocks bidirectional inbound d = record d {
  local_cluster = set_again d.local_cluster;
  remote_cluster = set_without d.remote_cluster;
}
set_cluster_blocks bidirectional outbound d = record d {
  local_cluster = set_again d.local_cluster;
  remote_cluster = set_again d.remote_cluster;
}
set_cluster_blocks destination inbound d = record d {
  destination_cluster = set_again d.destination_cluster;
  source_cluster = set_without d.source_cluster;
}
set_cluster_blocks _ _ d = record d {
  destination_cluster = set_again d.destination_cluster;
  source_cluster = set_again d.source_cluster;
}

unfoldable pub create_cluster_link_composite_id : (cluster_id link_name : Text) → Text
create_cluster_link_composite_id cluster_id link_name = cluster_id ++ slash ∷ link_name

module _ (world : LinkApi) where
  unfoldable pub set_cluster_link_attributes :
      LinkLog → KafkaRestClient → KafkaLink → LinkState → LinkHandled
  unfolding set_cluster_blocks load_cluster_link_configs create_cluster_link_composite_id
  set_cluster_link_attributes log c found d =
      let named : LinkState = record d {
        link_name = found.link_name;
        cluster_link_id = found.cluster_link_id;
        link = set_cluster_blocks d.link.link_mode d.link.connection_mode d.link;
      } in
      let configs = world.list_configs log c found.link_name in
      elim configs.err [
        | some err ↦ (some (configs_not_loaded err), log, named)
        | none ↦ (
          none,
          log,
          record named {
            id = create_cluster_link_composite_id c.cluster_id found.link_name;
            link = record named.link { configs = load_cluster_link_configs configs.value };
          },
        )
      ]

  unfoldable pub read_cluster_link_and_set_attributes :
      LinkLog → KafkaRestClient → (link_name : Text) → LinkState → LinkHandled
  unfolding set_cluster_link_attributes response_has_expected_status_code
  read_cluster_link_and_set_attributes log c link_name d =
      let found = world.get log c link_name in
      elim found.err [
        | some err ↦
            if response_has_expected_status_code found.resp status_not_found
              && not d.is_new_resource
            then (none, log, record d { id = [] })
            else (some (api err), log, d)
        | none ↦ set_cluster_link_attributes log c found.value d
      ]

  -- What is read of the resource first is set again by a read.
  unfoldable pub cluster_link_read : LinkLog → LinkState → LinkHandled
  unfolding create_kafka_rest_client_for_cluster_link read_cluster_link_and_set_attributes
  cluster_link_read log d =
      read_cluster_link_and_set_attributes log (create_kafka_rest_client_for_cluster_link d.link)
        d.link_name d

  unfoldable pub cluster_link_create : LinkProvider → LinkLog → LinkState → LinkHandled
  unfolding validate_cluster_link_input create_kafka_rest_client_for_cluster_link
      construct_cluster_link_request create_cluster_link_composite_id cluster_link_read
  cluster_link_create client log d =
      elim (validate_cluster_link_input d.link (is_oauth_enabled client)) [
        | some e ↦ (some (invalid e), log, d)
        | none ↦
            let c = create_kafka_rest_client_for_cluster_link d.link in
            let request = construct_cluster_link_request client d.link in
            let after : LinkLog = (d.link_name, request) ∷ log in
            elim (world.create log c d.link_name request).err [
              | some err ↦ (some (api err), after, d)
              | none ↦
                  cluster_link_read after
                    (record d { id = create_cluster_link_composite_id c.cluster_id d.link_name })
            ]
      ]
