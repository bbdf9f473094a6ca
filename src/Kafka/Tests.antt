-- ===== src/Kafka/Tests.antt =====
-- The theorems on ACLs, at concrete ones.
use terraform_provider_confl.Base.{◌≡◌, refl, false, none, [], ◌∷◌, codes}
use terraform_provider_confl.Kafka.Settings.{
  Provider, Environment, extract_rest_endpoint, extract_kafka_cluster_id,
  extract_cluster_api_key_and_api_secret,
}
use terraform_provider_confl.Kafka.Acl.{Acl, named, topic, group, ok, create_kafka_acl_id, read_id}
use terraform_provider_confl.Kafka.AclHandlers.{
  Data, AclApi, KafkaRestClient, extract_acl, kafka_acl_read, read_acl_and_set_attributes, set_id,
}
use terraform_provider_confl.Kafka.AclId
use terraform_provider_confl.Kafka.AclState
use terraform_provider_confl.Kafka.AclRefresh

abbrev orders_acl : Acl
orders_acl = record {
  resource_type = topic;
  resource_name = codes "orders";
  pattern_type = codes "LITERAL";
  principal = codes "User:sa-1";
  host = codes "*";
  operation = codes "READ";
  permission = codes "ALLOW";
}

-- A consumer group may have any name.
abbrev slash_acl : Acl
slash_acl = record {
  resource_type = group;
  resource_name = codes "team/orders";
  pattern_type = codes "LITERAL";
  principal = codes "User:sa-1";
  host = codes "*";
  operation = codes "READ";
  permission = codes "ALLOW";
}

abbrev hash_acl : Acl
hash_acl = record {
  resource_type = group;
  resource_name = codes "team#orders";
  pattern_type = codes "LITERAL";
  principal = codes "User:sa-1";
  host = codes "*";
  operation = codes "READ";
  permission = codes "ALLOW";
}

read_id_example :
    read_id (create_kafka_acl_id named (codes "lkc-1") orders_acl) ≡ ok (codes "lkc-1", orders_acl)
read_id_example =
    AclId.read_id-create_kafka_acl_id named (λ t. refl) (codes "lkc-1") orders_acl refl
      (refl, (refl, (refl, (refl, (refl, (refl, tt))))))
      (refl, (refl, (refl, (refl, (refl, (refl, tt))))))

-- A server that has the first ACL only.
abbrev server : AclApi
server = record {
  type_text = named;
  create = λ c acl. record { value = tt; resp = none; err = none };
  read = λ c acl. record { value = orders_acl ∷ []; resp = none; err = none };
  delete = λ c acl. record { value = tt; resp = none; err = none };
}

-- A server that has none.
abbrev empty_server : AclApi
empty_server = record {
  type_text = named;
  create = λ c acl. record { value = tt; resp = none; err = none };
  read = λ c acl. record { value = []; resp = none; err = none };
  delete = λ c acl. record { value = tt; resp = none; err = none };
}

abbrev environment : Environment
environment name = []

abbrev provider : Provider
provider = record {
  is_kafka_cluster_id_set = false;
  kafka_cluster_id = [];
  is_kafka_metadata_set = false;
  kafka_rest_endpoint = [];
  kafka_api_key = [];
  kafka_api_secret = [];
  is_oauth_enabled = false;
}

abbrev orders : Data
orders = record {
  id = codes "old";
  is_new_resource = false;
  resource_type = codes "TOPIC";
  resource_name = codes "orders";
  pattern_type = codes "LITERAL";
  principal = codes "User:sa-1";
  host = codes "*";
  operation = codes "READ";
  permission = codes "ALLOW";
  blocks = record {
    cluster_id = codes "lkc-1";
    rest_endpoint = codes "https://pkc";
    api_key = codes "key";
    api_secret = codes "secret";
  };
}

no_drift_example :
    kafka_acl_read server environment provider orders
    ≡ (none, set_id (create_kafka_acl_id named (codes "lkc-1") orders_acl) orders)
unfolding extract_rest_endpoint extract_kafka_cluster_id extract_cluster_api_key_and_api_secret
    extract_acl
no_drift_example =
    AclRefresh.kafka_acl_read-no_drift server environment provider orders (codes "https://pkc")
      (codes "lkc-1") (codes "key", codes "secret") refl refl refl orders_acl (λ t. refl) refl refl
      refl

abbrev rest : KafkaRestClient
rest = record {
  rest_endpoint = codes "https://pkc";
  cluster_id = codes "lkc-1";
  cluster_api_key = codes "key";
  cluster_api_secret = codes "secret";
  is_cluster_id_set_in_provider_block = false;
  is_metadata_set_in_provider_block = false;
}

missing_acl_example :
    AclState.Leaves empty_server environment provider rest orders_acl orders
      (read_acl_and_set_attributes empty_server environment provider rest orders_acl orders)
missing_acl_example =
    AclState.read_acl_and_set_attributes-Leaves empty_server environment provider rest orders_acl
      orders
