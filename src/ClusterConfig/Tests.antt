-- ===== src/ClusterConfig/Tests.antt =====
-- The theorem on cluster settings, at concrete ones.
use terraform_provider_confl.Base.{◌≡◌, refl, true, false, none, some, [], ◌∷◌}
use terraform_provider_confl.Kafka.Settings.{Provider, Environment}
use terraform_provider_confl.Topic.Configs.{TopicConfigs}
use terraform_provider_confl.ClusterConfig.Handlers.{
  ConfigData, ConfigApi, reset_not_supported, kafka_config_update,
}
use terraform_provider_confl.ClusterConfig.Replaced
use terraform_provider_confl.ClusterConfig.Replaced.{Replaces}

abbrev broker : ConfigApi
broker = record {
  list = λ log. λ c. record {
    value =
        record { name = "num.partitions"; source = "DYNAMIC_CLUSTER_CONFIG"; value = some "8" }
        ∷ [];
    resp = none;
    err = none;
  };
  update = λ log. λ c. λ edits. record { value = tt; resp = none; err = none };
}

abbrev no_variables : Environment
no_variables name = []

abbrev cluster_in_provider : Provider
cluster_in_provider = record {
  is_kafka_cluster_id_set = true;
  kafka_cluster_id = 108 ∷ 107 ∷ 99 ∷ [];
  is_kafka_metadata_set = true;
  kafka_rest_endpoint = 104 ∷ [];
  kafka_api_key = 107 ∷ [];
  kafka_api_secret = 115 ∷ [];
  is_oauth_enabled = false;
}

abbrev changed : TopicConfigs → ConfigData
changed configs = record {
  id = 108 ∷ 107 ∷ 99 ∷ [];
  is_new_resource = false;
  old_configs = ("num.partitions", "6") ∷ [];
  configs = configs;
  blocks = record { cluster_id = []; rest_endpoint = []; api_key = []; api_secret = [] };
}

-- A setting cannot be removed.
removal_is_refused :
    (kafka_config_update broker no_variables cluster_in_provider false true [] (changed [])).0
    ≡ some reset_not_supported
unfolding kafka_config_update
removal_is_refused = refl

kafka_config_update-Replaces_example :
    Replaces [] (changed (("num.partitions", "8") ∷ ("log.retention.ms", "1") ∷ [])) (
      kafka_config_update broker no_variables cluster_in_provider false true []
        (changed (("num.partitions", "8") ∷ ("log.retention.ms", "1") ∷ [])))
unfolding kafka_config_update
kafka_config_update-Replaces_example =
    Replaced.kafka_config_update-Replaces broker no_variables cluster_in_provider false []
      (changed (("num.partitions", "8") ∷ ("log.retention.ms", "1") ∷ [])) (refl, (refl, tt)) refl
