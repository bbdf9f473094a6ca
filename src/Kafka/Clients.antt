-- ===== src/Kafka/Clients.antt =====
-- internal/provider/resource_kafka_topic.go: how a handler of a Kafka resource makes its REST client from
-- the settings; `kafkaRestClientFactory.CreateKafkaRestClient`.
use terraform_provider_confl.Base.{◌≡◌, ◌⊎◌, refl, ◌∙◌, false, inl, inr}
use terraform_provider_confl.Kafka.{Text}
use terraform_provider_confl.Kafka.Settings.{
  Provider, Blocks, Setting, given, missing, Environment, extract_kafka_cluster_id,
  extract_rest_endpoint, extract_cluster_api_key_and_api_secret,
}
use terraform_provider_confl.Kafka.AclHandlers.{KafkaRestClient}

abbrev pub create_kafka_rest_client : Provider → Text → Text → Text × Text → KafkaRestClient
create_kafka_rest_client client rest_endpoint cluster_id credentials = record {
  rest_endpoint = rest_endpoint;
  cluster_id = cluster_id;
  cluster_api_key = credentials.0;
  cluster_api_secret = credentials.1;
  is_cluster_id_set_in_provider_block = client.is_kafka_cluster_id_set;
  is_metadata_set_in_provider_block = client.is_kafka_metadata_set;
}

-- What follows a setting, or the refusal.
abbrev pub if_given {ℓ κ} : {A : Type ℓ} → {R : Type κ} → R → Setting A → (A → R) → R
if_given refusal (given a) next = next a
if_given refusal missing next = refusal

-- The settings of all handlers but the import, which come in this order.
unfoldable pub with_kafka_rest_client {κ} :
    {R : Type κ} → Environment → Provider → Blocks → R → (KafkaRestClient → R) → R
unfolding extract_rest_endpoint extract_kafka_cluster_id extract_cluster_api_key_and_api_secret
with_kafka_rest_client env client blocks refusal next =
    if_given refusal (extract_rest_endpoint env client blocks false) (λ rest_endpoint.
      if_given refusal (extract_kafka_cluster_id env client blocks false) (λ cluster_id.
        if_given refusal (extract_cluster_api_key_and_api_secret env client blocks false)
          (λ credentials.
            next (create_kafka_rest_client client rest_endpoint cluster_id credentials))))

if_given_cases {ℓ κ} :
    {A : Type ℓ}
    → {R : Type κ} → (refusal : R) (s : Setting A) (next : A → R)
    → (if_given refusal s next ≡ refusal) ⊎ ((a : A) × (if_given refusal s next ≡ next a))
if_given_cases refusal (given a) next = inr (a, refl)
if_given_cases refusal missing next = inl refl

module _ {κ} {R : Type κ} (env : Environment) (client : Provider) (blocks : Blocks) (refusal : R)
    (next : KafkaRestClient → R) where
  abbrev to_credentials : Text → Text → R
  to_credentials rest_endpoint cluster_id =
      if_given refusal (extract_cluster_api_key_and_api_secret env client blocks false)
        (λ credentials. next (create_kafka_rest_client client rest_endpoint cluster_id credentials))

  abbrev to_cluster : Text → R
  to_cluster rest_endpoint =
      if_given refusal (extract_kafka_cluster_id env client blocks false)
        (to_credentials rest_endpoint)

  pub with_kafka_rest_client_cases :
      (with_kafka_rest_client env client blocks refusal next ≡ refusal)
      ⊎ ((c : KafkaRestClient) × (with_kafka_rest_client env client blocks refusal next ≡ next c))
  unfolding with_kafka_rest_client
  with_kafka_rest_client_cases =
      elim (if_given_cases refusal (extract_rest_endpoint env client blocks false) to_cluster) [
        | inl stop ↦ inl stop
        | inr (rest_endpoint, first) ↦
            elim (if_given_cases refusal (extract_kafka_cluster_id env client blocks false)
              (to_credentials rest_endpoint)) [
                | inl stop ↦ inl (first ∙ stop)
                | inr (cluster_id, second) ↦
                    elim (if_given_cases refusal
                      (extract_cluster_api_key_and_api_secret env client blocks false)
                      (λ credentials.
                        next
                          (create_kafka_rest_client client rest_endpoint cluster_id credentials))) [
                            | inl stop ↦ inl (first ∙ second ∙ stop)
                            | inr (credentials, third) ↦ inr (
                              create_kafka_rest_client client rest_endpoint cluster_id credentials,
                              first ∙ second ∙ third,
                            )
                          ]
              ]
      ]
