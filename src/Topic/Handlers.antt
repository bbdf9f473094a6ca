-- ===== src/Topic/Handlers.antt =====
-- internal/provider/resource_kafka_topic.go: the handlers of the resource. A request's JSON is for the log,
-- and building it does not fail. The wait after a call is left out.
use terraform_provider_confl.Base.{
  Bool, true, not, ◌&&◌, Option, none, some, List, [], ◌∷◌, ◌++◌, String, to_int32, if◌then◌else◌,
}
use terraform_provider_confl.Http.{status_not_found, response_has_expected_status_code}
use terraform_provider_confl.Wait.Sdk.{Waiter}
use terraform_provider_confl.Wait.Waiters.Deleting.{wait_for_kafka_topic_to_be_deleted}
use terraform_provider_confl.Kafka.{Text}
use terraform_provider_confl.Kafka.Separated.{split}
use terraform_provider_confl.Kafka.Settings.{
  Provider, Environment, extract_rest_endpoint, extract_cluster_api_key_and_api_secret,
}
use terraform_provider_confl.Kafka.Acl.{slash}
use terraform_provider_confl.Kafka.AclHandlers.{KafkaRestClient, set_blocks}
use terraform_provider_confl.Kafka.Clients.{
  create_kafka_rest_client, if_given, with_kafka_rest_client,
}
use terraform_provider_confl.Topic.Configs.{
  ConfigEdit, ConfigBatch, batch, read_only, config_update_batch, outdated_configs, set_configs,
}
use terraform_provider_confl.Topic.Cluster.{
  TopicData, CreateTopicRequest, created, partitions_updated, configs_updated, deleted, TopicLog,
  TopicApi, api, configs_not_loaded, wait, setting_missing, invalid_format,
  only_some_can_be_updated, setting_is_read_only, update_failed, TopicHandled,
}

unfoldable pub create_kafka_topic_id : Text → Text → Text
create_kafka_topic_id cluster_id topic_name = cluster_id ++ slash ∷ topic_name

-- What the SDK says has changed; `others` leaves out the credentials and the endpoint.
pub record TopicChanges : Type 0 where
  pub others : Bool
  pub partitions_count : Bool
  pub configs : Bool

unfoldable pub with_kafka_client :
    Environment → Provider → TopicLog → TopicData → (KafkaRestClient → TopicHandled) → TopicHandled
unfolding with_kafka_rest_client
with_kafka_client env client log d next =
    with_kafka_rest_client env client d.blocks (some setting_missing, log, d) next

-- What an import reads from an identifier.
abbrev pub two_parts : List Text → Option (Text × Text)
two_parts (cluster_id ∷ topic_name ∷ []) = some (cluster_id, topic_name)
two_parts _ = none

abbrev pub parts_or_refuse :
    TopicLog → TopicData → Option (Text × Text) → (Text × Text → TopicHandled) → TopicHandled
parts_or_refuse log d none next = (some invalid_format, log, d)
parts_or_refuse log d (some parts) next = next parts

-- The batch, or an error without a call.
abbrev pub batch_or_refuse :
    TopicLog → TopicData → ConfigBatch → (List ConfigEdit → TopicHandled) → TopicHandled
batch_or_refuse log d (read_only name) next = (some (setting_is_read_only name), log, d)
batch_or_refuse log d (batch edits) next = next edits

abbrev pub all_up_to_date : TopicLog → TopicData → List String → TopicHandled
all_up_to_date log d [] = (none, log, d)
all_up_to_date log d (name ∷ names) = (some (update_failed (name ∷ names)), log, d)

-- What follows an update of the partitions' number.
abbrev pub if_updated : TopicHandled → (TopicLog → TopicData → TopicHandled) → TopicHandled
if_updated (some e, log, d) next = (some e, log, d)
if_updated (none, log, d) next = next log d

module _ (world : TopicApi) (env : Environment) (client : Provider) where
  unfoldable pub read_topic_and_set_attributes :
      TopicLog → KafkaRestClient → Text → TopicData → TopicHandled
  unfolding create_kafka_topic_id response_has_expected_status_code set_configs set_blocks
  read_topic_and_set_attributes log c topic_name d =
      let kafka_topic = world.get log c topic_name in
      elim kafka_topic.err [
        | some err ↦
            if response_has_expected_status_code kafka_topic.resp status_not_found
              && not d.is_new_resource
            then (none, log, record d { id = [] })
            else (some (api err), log, d)
        | none ↦
            let named : TopicData = record d {
              topic_name = kafka_topic.value.topic_name;
              partitions_count = kafka_topic.value.partitions_count;
            } in
            let configs = world.list_configs log c topic_name in
            elim configs.err [
              | some err ↦ (some (configs_not_loaded err), log, named)
              | none ↦ (
                none,
                log,
                record named {
                  id = create_kafka_topic_id c.cluster_id topic_name;
                  configs = set_configs configs.value;
                  blocks = set_blocks client c d.blocks;
                },
              )
            ]
      ]

  unfoldable pub kafka_topic_read : TopicLog → TopicData → TopicHandled
  unfolding with_kafka_client read_topic_and_set_attributes
  kafka_topic_read log d =
      with_kafka_client env client log d (λ c. read_topic_and_set_attributes log c d.topic_name d)

  unfoldable pub kafka_topic_create : TopicLog → TopicData → TopicHandled
  unfolding with_kafka_client create_kafka_topic_id kafka_topic_read to_int32
  kafka_topic_create log d = with_kafka_client env client log d (λ c.
      let request : CreateTopicRequest = record {
        topic_name = d.topic_name;
        partitions_count = to_int32 d.partitions_count;
        configs = d.configs;
      } in
      let after : TopicLog = created request ∷ log in
      elim (world.create log c request).err [
        | some err ↦ (some (api err), after, d)
        | none ↦
            kafka_topic_read after
              (record d { id = create_kafka_topic_id c.cluster_id d.topic_name })
      ])

  unfoldable pub kafka_topic_import : TopicLog → TopicData → TopicHandled
  unfolding extract_rest_endpoint extract_cluster_api_key_and_api_secret split
      read_topic_and_set_attributes
  kafka_topic_import log d =
      if_given (some setting_missing, log, d) (extract_rest_endpoint env client d.blocks true)
        (λ rest_endpoint.
          if_given (some setting_missing, log, d)
            (extract_cluster_api_key_and_api_secret env client d.blocks true)
            (λ credentials. parts_or_refuse log d (two_parts (split slash d.id)) (λ parts.
              read_topic_and_set_attributes log
                (create_kafka_rest_client client rest_endpoint parts.0 credentials) parts.1
                (record d { is_new_resource = true }))))

  unfoldable pub kafka_topic_delete :
      (w : Waiter) → (is_test : Bool) → TopicLog → TopicData → TopicHandled
  unfolding with_kafka_client wait_for_kafka_topic_to_be_deleted
  kafka_topic_delete w is_test log d = with_kafka_client env client log d (λ c.
      let after : TopicLog = deleted d.topic_name ∷ log in
      elim (world.delete log c d.topic_name).err [
        | some err ↦ (some (api err), after, d)
        | none ↦
            elim (wait_for_kafka_topic_to_be_deleted w is_test (world.poll after c)
              (world.string_of c.cluster_id) (world.string_of d.topic_name)) [
                | some err ↦ (some (wait err), after, d)
                | none ↦ (none, after, d)
              ]
      ])

  -- If the call fails, the number is the old one again, as an int32.
  unfoldable pub send_partitions_count : TopicLog → TopicData → KafkaRestClient → TopicHandled
  unfolding to_int32
  send_partitions_count log d c =
      let after : TopicLog = partitions_updated d.topic_name (to_int32 d.partitions_count) ∷ log in
      elim (world.update_partitions log c d.topic_name (to_int32 d.partitions_count)).err [
        | some err ↦
            (some (api err), after, record d { partitions_count = to_int32 d.old_partitions_count })
        | none ↦ (none, after, d)
      ]

  unfoldable pub update_partitions_count : TopicLog → TopicData → TopicHandled
  unfolding with_kafka_client send_partitions_count
  update_partitions_count log d = with_kafka_client env client log d (send_partitions_count log d)

  -- The call with the batch, and the check of the settings after it.
  unfoldable pub send_configs :
      List ConfigEdit → TopicLog → TopicData → KafkaRestClient → TopicHandled
  unfolding set_configs outdated_configs
  send_configs edits log d c =
      let after : TopicLog = configs_updated d.topic_name edits ∷ log in
      elim (world.update_configs log c d.topic_name edits).err [
        | some err ↦ (some (api err), after, d)
        | none ↦
            let actual = world.list_configs after c d.topic_name in
            elim actual.err [
              | some err ↦ (some (configs_not_loaded err), after, d)
              | none ↦ all_up_to_date after d (outdated_configs (set_configs actual.value) edits)
            ]
      ]

  unfoldable pub update_configs : TopicLog → TopicData → TopicHandled
  unfolding config_update_batch with_kafka_client send_configs
  update_configs log d =
      batch_or_refuse log d (config_update_batch d.old_configs d.configs)
        (λ edits. with_kafka_client env client log d (send_configs edits log d))

  unfoldable pub kafka_topic_update : TopicChanges → TopicLog → TopicData → TopicHandled
  unfolding update_partitions_count update_configs
  kafka_topic_update changes log d =
      let partitions =
        if changes.partitions_count then update_partitions_count log d else (none, log, d) in
      if changes.others
      then (some only_some_can_be_updated, log, d)
      else if_updated partitions
          (λ after dd. if changes.configs then update_configs after dd else (none, after, dd))
