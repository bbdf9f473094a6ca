-- ===== src/Topic/Tests.antt =====
-- The theorems on topics, at concrete ones.
use terraform_provider_confl.Base.{
  arith, pos, negsuc, to_int32, ◌≡◌, refl, true, false, none, some, [], ◌∷◌, String,
}
use terraform_provider_confl.Wait.{Call}
use terraform_provider_confl.Kafka.Settings.{Provider, Environment}
use terraform_provider_confl.Topic.Configs.{
  TopicConfigs, config_of, reset, put, read_only, RemoteConfig, config_update_batch,
}
use terraform_provider_confl.Topic.Cluster.{TopicData, TopicApi}
use terraform_provider_confl.Topic.Handlers.{kafka_topic_update}
use terraform_provider_confl.Topic.Applied.{edited}
use terraform_provider_confl.Topic.Settled
use terraform_provider_confl.Topic.Updated
use terraform_provider_confl.Topic.Updated.{SettledAfter, with_partitions}

-- A setting is removed, one is updated, one is added.
abbrev before : TopicConfigs
before = ("cleanup.policy", "compact") ∷ ("retention.ms", "1") ∷ []

abbrev wanted : TopicConfigs
wanted = ("retention.ms", "2") ∷ ("segment.ms", "5") ∷ []

-- A setting that cannot be changed.
read_only_setting :
    config_update_batch [] (("compression.type", "zstd") ∷ []) ≡ read_only "compression.type"
unfolding config_update_batch
read_only_setting = refl

config_update_batch_settles_example :
    edited "cleanup.policy"
      (reset "cleanup.policy" ∷ put "retention.ms" "2" ∷ put "segment.ms" "5" ∷ [])
      (config_of "cleanup.policy" before)
    ≡ config_of "cleanup.policy" wanted
unfolding config_update_batch config_of
config_update_batch_settles_example =
    Settled.config_update_batch_settles before wanted
      (reset "cleanup.policy" ∷ put "retention.ms" "2" ∷ put "segment.ms" "5" ∷ [])
      (refl, (refl, tt)) refl "cleanup.policy"

abbrev answer_of : {A : Type 0} → A → Call A
answer_of a = record { value = a; resp = none; err = none }

abbrev dynamic : String → String → RemoteConfig
dynamic name value = record { name = name; source = "DYNAMIC_TOPIC_CONFIG"; value = some value }

abbrev cluster : TopicApi
cluster = record {
  string_of = λ s. "t";
  create = λ log. λ c. λ q. answer_of tt;
  get = λ log. λ c. λ name. answer_of (record { topic_name = name; partitions_count = pos 6 });
  poll = λ log. λ c. λ n. λ cluster_id. λ name. answer_of tt;
  list_configs =
      λ log. λ c. λ name. answer_of (dynamic "retention.ms" "2" ∷ dynamic "segment.ms" "5" ∷ []);
  update_partitions = λ log. λ c. λ name. λ n. answer_of tt;
  update_configs = λ log. λ c. λ name. λ edits. answer_of tt;
  delete = λ log. λ c. λ name. answer_of tt;
}

abbrev nowhere : Environment
nowhere name = []

abbrev kafka_in_provider : Provider
kafka_in_provider = record {
  is_kafka_cluster_id_set = true;
  kafka_cluster_id = 108 ∷ 107 ∷ 99 ∷ [];
  is_kafka_metadata_set = true;
  kafka_rest_endpoint = 104 ∷ [];
  kafka_api_key = 107 ∷ [];
  kafka_api_secret = 115 ∷ [];
  is_oauth_enabled = false;
}

abbrev orders : TopicData
orders = record {
  id = 108 ∷ 107 ∷ 99 ∷ 47 ∷ 111 ∷ [];
  is_new_resource = false;
  topic_name = 111 ∷ [];
  old_partitions_count = pos 3;
  partitions_count = pos 6;
  old_configs = before;
  configs = wanted;
  blocks = record { cluster_id = []; rest_endpoint = []; api_key = []; api_secret = [] };
}

kafka_topic_update-SettledAfter_example :
    SettledAfter cluster (with_partitions true orders []) orders (
      kafka_topic_update cluster nowhere kafka_in_provider
        (record { others = false; partitions_count = true; configs = true })
        []
        orders)
unfolding kafka_topic_update
kafka_topic_update-SettledAfter_example =
    Updated.kafka_topic_update-SettledAfter cluster nowhere kafka_in_provider false true [] orders
      (refl, (refl, tt)) (omega arith) refl

-- A number of partitions above the greatest int32 is sent as another number.
many_partitions : to_int32 (pos 4294967302) ≡ pos 6
unfolding to_int32
many_partitions = refl

too_many_partitions : to_int32 (pos 2147483648) ≡ negsuc 2147483647
unfolding to_int32
too_many_partitions = refl
