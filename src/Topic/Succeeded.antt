-- ===== src/Topic/Succeeded.antt =====
-- What holds of the parts of a topic's update when there is no error.
use terraform_provider_confl.Base.{
  ◌≡◌, ◌⊎◌, refl, sym, ap, ◌∙◌, none, some, List, [], ◌∷◌, String, str_eq, eq_iff, Bool-cases,
  Option-cases, inl, inr,
}
use terraform_provider_confl.Kafka.Settings.{Provider, Environment}
use terraform_provider_confl.Kafka.AclHandlers.{KafkaRestClient}
use terraform_provider_confl.Kafka.Clients.{with_kafka_rest_client_cases}
use terraform_provider_confl.Topic.Configs.{
  TopicConfigs, config_of, ConfigEdit, reset, put, ConfigBatch, batch, read_only, outdated_configs,
}
use terraform_provider_confl.Topic.Cluster.{setting_missing, TopicData, TopicLog, TopicHandled}
use terraform_provider_confl.Topic.Handlers.{
  with_kafka_client, batch_or_refuse, all_up_to_date, if_updated,
}

-- Each value that was sent is there, or its setting is not listed.
abbrev pub Confirmed : (actual_configs : TopicConfigs) → List ConfigEdit → Type 0
Confirmed actual [] = Unit
Confirmed actual (reset name ∷ edits) = Confirmed actual edits
Confirmed actual (put name value ∷ edits) =
    ((config_of name actual ≡ none) ⊎ (config_of name actual ≡ some value)) × Confirmed actual edits

pub outdated-Confirmed :
    (actual : TopicConfigs) (edits : List ConfigEdit)
    → outdated_configs actual edits ≡ []
    → Confirmed actual edits
unfolding outdated_configs
outdated-Confirmed actual [] h = tt
outdated-Confirmed actual (reset n ∷ edits) h = outdated-Confirmed actual edits h
outdated-Confirmed actual (put n v ∷ edits) h = elim (Option-cases (config_of n actual)) [
  | inl gone ↦ (inl gone, outdated-Confirmed actual edits (rw (gone, outdated_configs) at h))
  | inr (u, there) ↦ elim (Bool-cases (str_eq u v)) [
    | inl same ↦ (
      inr (there ∙ ap some ((eq_iff u v).0 same)),
      outdated-Confirmed actual edits (rw (there, same, outdated_configs) at h),
    )
    | inr other ↦ absurd (let h1 = rw (there, other, outdated_configs) at h in cc)
  ]
]

pub all_up_to_date_lem :
    (log : TopicLog) (d : TopicData) (names : List String)
    → (all_up_to_date log d names).0 ≡ none
    → names ≡ []
all_up_to_date_lem log d [] h = refl
all_up_to_date_lem log d (n ∷ names) h = absurd (cc)

pub batch_or_refuse_lem :
    (log : TopicLog) (d : TopicData) (b : ConfigBatch) (next : List ConfigEdit → TopicHandled)
    → (batch_or_refuse log d b next).0 ≡ none
    → (edits : List ConfigEdit) × (b ≡ batch edits) × (batch_or_refuse log d b next ≡ next edits)
batch_or_refuse_lem log d (batch edits) next h = (edits, refl, refl)
batch_or_refuse_lem log d (read_only n) next h = absurd (cc)

pub if_updated_lem :
    (r : TopicHandled) (next : TopicLog → TopicData → TopicHandled)
    → (if_updated r next).0 ≡ none
    → r.0 ≡ none
if_updated_lem (some e, log, d) next h = absurd (cc)
if_updated_lem (none, log, d) next h = refl

pub no_error_at : {r s : TopicHandled} → r ≡ s → r.0 ≡ none → s.0 ≡ none
no_error_at same h = ap (λ r. r.0) (sym same) ∙ h

module _ (env : Environment) (client : Provider) where
  pub with_kafka_client_lem :
      (log : TopicLog) (d : TopicData) (next : KafkaRestClient → TopicHandled)
      → (with_kafka_client env client log d next).0 ≡ none
      → (c : KafkaRestClient) × (with_kafka_client env client log d next ≡ next c)
  unfolding with_kafka_client
  with_kafka_client_lem log d next h =
      elim (with_kafka_rest_client_cases env client d.blocks (some setting_missing, log, d) next) [
        | inl stop ↦ absurd (let h1 = no_error_at stop h in cc)
        | inr made ↦ made
      ]
