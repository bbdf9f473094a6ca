-- ===== src/Topic/Cluster.antt =====
-- internal/provider/resource_kafka_topic.go: a resource, and the topic calls of the Kafka REST API. A call
-- is answered by the calls before it that change a topic, too: `TopicLog`, the latest first.
use terraform_provider_confl.Base.{ℕ, ℤ, Bool, Option, List, String}
use terraform_provider_confl.Http.Descriptive.{ApiError}
use terraform_provider_confl.Wait.{Call, Err}
use terraform_provider_confl.Kafka.{Text}
use terraform_provider_confl.Kafka.Settings.{Blocks}
use terraform_provider_confl.Kafka.AclHandlers.{KafkaRestClient}
use terraform_provider_confl.Topic.Configs.{TopicConfigs, ConfigEdit, RemoteConfig}

-- `schema.ResourceData`; the old values are those of the state.
pub record TopicData : Type 0 where
  pub id : Text
  pub is_new_resource : Bool
  pub topic_name : Text
  pub old_partitions_count : ℤ
  pub partitions_count : ℤ
  pub old_configs : TopicConfigs
  pub configs : TopicConfigs
  pub blocks : Blocks

-- `CreateTopicRequestData`
pub record CreateTopicRequest : Type 0 where
  pub topic_name : Text
  pub partitions_count : ℤ
  pub configs : TopicConfigs

pub data TopicCall : Type 0 where
  created : CreateTopicRequest → TopicCall
  partitions_updated : (topic_name : Text) → (partitions_count : ℤ) → TopicCall
  configs_updated : (topic_name : Text) → List ConfigEdit → TopicCall
  deleted : (topic_name : Text) → TopicCall

abbrev pub TopicLog : Type 0
TopicLog = List TopicCall

-- `TopicData`, as far as it is read.
pub record KafkaTopic : Type 0 where
  pub topic_name : Text
  pub partitions_count : ℤ

-- `poll` is a read by a wait, with its number, and `string_of` a text as the string with its bytes.
pub record TopicApi : Type 0 where
  pub string_of : Text → String
  pub create : TopicLog → KafkaRestClient → CreateTopicRequest → Call (Unit {0})
  pub get : TopicLog → KafkaRestClient → (topic_name : Text) → Call KafkaTopic
  pub poll : TopicLog → KafkaRestClient → ℕ → (cluster_id topic_name : String) → Call (Unit {0})
  pub list_configs : TopicLog → KafkaRestClient → (topic_name : Text) → Call (List RemoteConfig)
  pub update_partitions : TopicLog → KafkaRestClient → (topic_name : Text) → ℤ → Call (Unit {0})
  pub update_configs :
      TopicLog → KafkaRestClient → (topic_name : Text) → List ConfigEdit → Call (Unit {0})
  pub delete : TopicLog → KafkaRestClient → (topic_name : Text) → Call (Unit {0})

pub data TopicError : Type 0 where
  api configs_not_loaded : ApiError → TopicError
  wait : Err → TopicError
  setting_missing invalid_format only_some_can_be_updated : TopicError
  setting_is_read_only : (name : String) → TopicError
  update_failed : (outdated : List String) → TopicError

-- The error that a handler reports, the calls that it has made, and the data as it leaves it.
abbrev pub TopicHandled : Type 0
TopicHandled = Option TopicError × TopicLog × TopicData
