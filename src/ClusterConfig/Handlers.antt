-- ===== src/ClusterConfig/Handlers.antt =====
-- internal/provider/resource_kafka_cluster_config.go: the resource and its handlers. A request's JSON is
-- for the log, and building it does not fail. The wait after a call is left out.
use terraform_provider_confl.Base.{
  Bool, true, false, not, ◌&&◌, Option, none, some, List, [], ◌∷◌, if◌then◌else◌,
}
use terraform_provider_confl.Http.{status_not_found, response_has_expected_status_code}
use terraform_provider_confl.Http.Descriptive.{ApiError}
use terraform_provider_confl.Wait.{Call}
use terraform_provider_confl.Kafka.{Text}
use terraform_provider_confl.Kafka.Settings.{
  Provider, Blocks, Environment, extract_rest_endpoint, extract_cluster_api_key_and_api_secret,
}
use terraform_provider_confl.Kafka.AclHandlers.{KafkaRestClient, set_blocks}
use terraform_provider_confl.Kafka.Clients.{
  create_kafka_rest_client, if_given, with_kafka_rest_client,
}
use terraform_provider_confl.Topic.Configs.{TopicConfigs, config_of, ConfigEdit, put, RemoteConfig}

-- `schema.ResourceData`; the old value is that of the state.
pub record ConfigData : Type 0 where
  pub id : Text
  pub is_new_resource : Bool
  pub old_configs : TopicConfigs
  pub configs : TopicConfigs
  pub blocks : Blocks

-- The batches that have been sent to the cluster, the latest first.
abbrev pub ConfigLog : Type 0
ConfigLog = List (List ConfigEdit)

-- A call is answered by the batches before it, too.
pub record ConfigApi : Type 0 where
  pub list : ConfigLog → KafkaRestClient → Call (List RemoteConfig)
  pub update : ConfigLog → KafkaRestClient → List ConfigEdit → Call (Unit {0})

pub data ConfigError : Type 0 where
  api : ApiError → ConfigError
  setting_missing only_some_can_be_updated reset_not_supported : ConfigError

-- The error that a handler reports, the batches that it has sent, and the data as it leaves it.
abbrev pub ConfigHandled : Type 0
ConfigHandled = Option ConfigError × ConfigLog × ConfigData

unfoldable pub with_config_client :
    Environment
    → Provider
    → ConfigLog
    → ConfigData
    → (KafkaRestClient → ConfigHandled)
    → ConfigHandled
unfolding with_kafka_rest_client
with_config_client env client log d next =
    with_kafka_rest_client env client d.blocks (some setting_missing, log, d) next

-- Every setting is sent with its value, whether it has changed or not.
unfoldable pub extract_cluster_configs : TopicConfigs → List ConfigEdit
extract_cluster_configs [] = []
extract_cluster_configs ((name, value) ∷ configs) = put name value ∷ extract_cluster_configs configs

unfoldable pub convert_kafka_config_to_map : List RemoteConfig → TopicConfigs
convert_kafka_config_to_map [] = []
convert_kafka_config_to_map (r ∷ configs) =
    let rest = convert_kafka_config_to_map configs in
    elim r.value [ none ↦ rest | some value ↦ (r.name, value) ∷ rest ]

-- No setting of the old ones is missing among the new ones.
unfoldable pub none_removed : (new_configs old_configs : TopicConfigs) → Bool
unfolding config_of
none_removed new_configs [] = true
none_removed new_configs ((name, value) ∷ old_configs) =
    let rest = none_removed new_configs old_configs in
    elim (config_of name new_configs) [ none ↦ false | some v ↦ rest ]

module _ (world : ConfigApi) (env : Environment) (client : Provider) where
  unfoldable pub read_config_and_set_attributes :
      ConfigLog → KafkaRestClient → ConfigData → ConfigHandled
  unfolding response_has_expected_status_code convert_kafka_config_to_map set_blocks
  read_config_and_set_attributes log c d =
      let kafka_config = world.list log c in
      elim kafka_config.err [
        | some err ↦
            if response_has_expected_status_code kafka_config.resp status_not_found
              && not d.is_new_resource
            then (none, log, record d { id = [] })
            else (some (api err), log, d)
        | none ↦ (
          none,
          log,
          record d {
            id = c.cluster_id;
            configs = convert_kafka_config_to_map kafka_config.value;
            blocks = set_blocks client c d.blocks;
          },
        )
      ]

  unfoldable pub kafka_config_read : ConfigLog → ConfigData → ConfigHandled
  unfolding with_config_client read_config_and_set_attributes
  kafka_config_read log d =
      with_config_client env client log d (λ c. read_config_and_set_attributes log c d)

  -- A batch with every setting, and what follows it.
  unfoldable pub send_cluster_configs :
      (after : ConfigLog → KafkaRestClient → ConfigHandled)
      → ConfigLog
      → ConfigData
      → KafkaRestClient
      → ConfigHandled
  unfolding extract_cluster_configs
  send_cluster_configs after log d c =
      let edits = extract_cluster_configs d.configs in
      elim (world.update log c edits).err [
        | some err ↦ (some (api err), edits ∷ log, d)
        | none ↦ after (edits ∷ log) c
      ]

  unfoldable pub kafka_config_create : ConfigLog → ConfigData → ConfigHandled
  unfolding with_config_client send_cluster_configs kafka_config_read
  kafka_config_create log d = with_config_client env client log d (
      send_cluster_configs (λ after c. kafka_config_read after (record d { id = c.cluster_id })) log
        d)

  -- The settings are not reset.
  unfoldable pub kafka_config_delete : ConfigLog → ConfigData → ConfigHandled
  kafka_config_delete log d = (none, log, d)

  unfoldable pub kafka_config_import : ConfigLog → ConfigData → ConfigHandled
  unfolding extract_rest_endpoint extract_cluster_api_key_and_api_secret
      read_config_and_set_attributes
  kafka_config_import log d =
      if_given (some setting_missing, log, d) (extract_rest_endpoint env client d.blocks true)
        (λ rest_endpoint.
          if_given (some setting_missing, log, d)
            (extract_cluster_api_key_and_api_secret env client d.blocks true)
            (λ credentials.
              read_config_and_set_attributes log
                (create_kafka_rest_client client rest_endpoint d.id credentials)
                (record d { is_new_resource = true })))

  -- `others` and `configs` say what the SDK says has changed; `others` leaves out the credentials.
  unfoldable pub kafka_config_update :
      (others configs : Bool) → ConfigLog → ConfigData → ConfigHandled
  unfolding none_removed with_config_client send_cluster_configs kafka_config_read
  kafka_config_update others configs log d =
      if others
      then (some only_some_can_be_updated, log, d)
      else if not configs
      then kafka_config_read log d
      else if not (none_removed d.configs d.old_configs)
      then (some reset_not_supported, log, d)
      else with_config_client env client log d
          (send_cluster_configs (λ after c. kafka_config_read after d) log d)
