-- ===== src/Topic/Updated.antt =====
-- What an update of a topic has done when it ends.
use terraform_provider_confl.Base.{
  ◌≡◌, refl, sym, ap, ◌∙◌, Bool, to_int32, InInt32, to_int32-InInt32, true, false, none, List, ◌∷◌,
  String, Option-cases, inl, inr,
}
use mathlib.Core.Path.{subst}
use terraform_provider_confl.Kafka.Settings.{Provider, Environment}
use terraform_provider_confl.Kafka.AclHandlers.{KafkaRestClient}
use terraform_provider_confl.Topic.Configs.{
  config_of, ConfigEdit, config_update_batch, outdated_configs, set_configs,
}
use terraform_provider_confl.Topic.Cluster.{
  TopicData, partitions_updated, configs_updated, TopicLog, TopicApi, TopicHandled,
}
use terraform_provider_confl.Topic.Handlers.{
  with_kafka_client, all_up_to_date, if_updated, send_partitions_count, update_partitions_count,
  send_configs, update_configs, kafka_topic_update,
}
use terraform_provider_confl.Topic.Applied.{edited, Distinct}
use terraform_provider_confl.Topic.Settled.{config_update_batch_settles}
use terraform_provider_confl.Topic.Succeeded.{
  Confirmed, outdated-Confirmed, all_up_to_date_lem, batch_or_refuse_lem, if_updated_lem,
  no_error_at, with_kafka_client_lem,
}

-- The log before the call that changes the settings.
abbrev pub with_partitions : Bool → TopicData → TopicLog → TopicLog
with_partitions false d log = log
with_partitions true d log = partitions_updated d.topic_name d.partitions_count ∷ log

-- A number of partitions that is sent is an int32.
abbrev pub Sendable : Bool → TopicData → Type 0
Sendable false d = Unit
Sendable true d = InInt32 d.partitions_count

module _ (world : TopicApi) where
  -- What is sent: edits that take every setting from its old value to its new one, as the last call; and
  -- the settings that are loaded after it confirm them.
  abbrev pub SettledAfter : TopicLog → TopicData → TopicHandled → Type 0
  SettledAfter log d r =
      (c : KafkaRestClient) × (edits : List ConfigEdit) × (r.1
        ≡ configs_updated d.topic_name edits ∷ log)
      × ((name : String)
          → edited name edits (config_of name d.old_configs) ≡ config_of name d.configs)
      × ((world.list_configs r.1 c d.topic_name).err ≡ none)
      × Confirmed (set_configs (world.list_configs r.1 c d.topic_name).value) edits

  Sent : TopicLog → TopicData → KafkaRestClient → List ConfigEdit → TopicHandled → Type 0
  Sent log d c edits r =
      (r.1 ≡ configs_updated d.topic_name edits ∷ log)
      × ((world.list_configs r.1 c d.topic_name).err ≡ none)
      × Confirmed (set_configs (world.list_configs r.1 c d.topic_name).value) edits

module _ (world : TopicApi) (env : Environment) (client : Provider) where
  send_configs_lem :
      (edits : List ConfigEdit) (log : TopicLog) (d : TopicData) (c : KafkaRestClient)
      → (send_configs world env client edits log d c).0 ≡ none
      → Sent world log d c edits (send_configs world env client edits log d c)
  unfolding send_configs Sent
  send_configs_lem edits log d c h =
      let after : TopicLog = configs_updated d.topic_name edits ∷ log in
      let actual = world.list_configs after c d.topic_name in
      elim (Option-cases (world.update_configs log c d.topic_name edits).err) [
        | inr (e, bad) ↦ absurd (let h1 = rw (bad, send_configs) at h in cc)
        | inl fine ↦ elim (Option-cases actual.err) [
          | inr (e, bad) ↦ absurd (let h1 = rw (fine, bad, send_configs) at h in cc)
          | inl loaded ↦
              let names = outdated_configs (set_configs actual.value) edits in
              let shape : send_configs world env client edits log d c
                  ≡ all_up_to_date after d names =
                rw (fine, loaded, send_configs) refl in
              let empty = all_up_to_date_lem after d names (no_error_at shape h) in
              subst (Sent world log d c edits) (sym (shape ∙ ap (all_up_to_date after d) empty))
                (refl, loaded, outdated-Confirmed (set_configs actual.value) edits empty)
        ]
      ]

  update_configs-SettledAfter :
      (log : TopicLog) (d : TopicData)
      → Distinct d.configs
      → (update_configs world env client log d).0 ≡ none
      → SettledAfter world log d (update_configs world env client log d)
  unfolding update_configs Sent
  update_configs-SettledAfter log d apart h =
      let (edits, made, first) =
        batch_or_refuse_lem log d (config_update_batch d.old_configs d.configs)
          (λ edits. with_kafka_client env client log d (send_configs world env client edits log d))
          h in
      let (c, second) =
        with_kafka_client_lem env client log d (send_configs world env client edits log d)
          (no_error_at first h) in
      let (last, loaded, confirmed) =
        send_configs_lem edits log d c (no_error_at (first ∙ second) h) in
      subst (SettledAfter world log d) (sym (first ∙ second)) (
        c,
        edits,
        last,
        config_update_batch_settles d.old_configs d.configs edits apart made,
        loaded,
        confirmed,
      )

  send_partitions_count_lem :
      (log : TopicLog) (d : TopicData) (c : KafkaRestClient)
      → (send_partitions_count world env client log d c).0 ≡ none
      → send_partitions_count world env client log d c
        ≡ (none, partitions_updated d.topic_name (to_int32 d.partitions_count) ∷ log, d)
  unfolding send_partitions_count
  send_partitions_count_lem log d c h =
      elim (Option-cases
        (world.update_partitions log c d.topic_name (to_int32 d.partitions_count)).err) [
          | inr (e, bad) ↦ absurd (let h1 = rw (bad, send_partitions_count) at h in cc)
          | inl fine ↦ rw (fine, send_partitions_count) refl
        ]

  update_partitions_count_lem :
      (log : TopicLog) (d : TopicData)
      → InInt32 d.partitions_count
      → (update_partitions_count world env client log d).0 ≡ none
      → update_partitions_count world env client log d
        ≡ (none, partitions_updated d.topic_name d.partitions_count ∷ log, d)
  unfolding update_partitions_count
  update_partitions_count_lem log d fits h =
      let (c, sent) =
        with_kafka_client_lem env client log d (send_partitions_count world env client log d) h in
      sent
      ∙ send_partitions_count_lem log d c (no_error_at sent h)
      ∙ ap (λ i. (none, partitions_updated d.topic_name i ∷ log, d))
          (to_int32-InInt32 d.partitions_count fits)

  -- When an update that changes the settings ends without an error, and the new settings have each name
  -- once, and a number of partitions that changes is an int32, then its last call sends edits that, made in their order, give every setting its new value
  -- from its old one; before it, if the number of partitions changes, there is the call that sends the
  -- new number, and nothing else; and the settings that are loaded after it list each value sent, or
  -- do not list its setting.
  pub kafka_topic_update-SettledAfter :
      (others partitions_count : Bool) (log : TopicLog) (d : TopicData)
      → Distinct d.configs
      → Sendable partitions_count d
      → (kafka_topic_update world env client
          (record { others = others; partitions_count = partitions_count; configs = true })
          log
          d).0
        ≡ none
      → SettledAfter world (with_partitions partitions_count d log) d (
          kafka_topic_update world env client
            (record { others = others; partitions_count = partitions_count; configs = true })
            log
            d)
  unfolding kafka_topic_update
  kafka_topic_update-SettledAfter true p log d apart fits h = absurd (cc)
  kafka_topic_update-SettledAfter false false log d apart fits h =
      update_configs-SettledAfter log d apart h
  kafka_topic_update-SettledAfter false true log d apart fits h =
      let resized = update_partitions_count world env client log d in
      let next = update_configs world env client in
      let after : TopicLog = with_partitions true d log in
      let shape : if_updated resized next ≡ next after d =
        ap (λ r. if_updated r next)
          (update_partitions_count_lem log d fits (if_updated_lem resized next h)) in
      subst (SettledAfter world after d) (sym shape)
        (update_configs-SettledAfter after d apart (no_error_at shape h))
