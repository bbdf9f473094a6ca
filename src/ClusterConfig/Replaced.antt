-- ===== src/ClusterConfig/Replaced.antt =====
-- What an update of a cluster's settings sends.
use terraform_provider_confl.Base.{
  ◌≡◌, refl, sym, ap, ◌∙◌, Bool, true, false, not, ◌&&◌, Option, none, some, List, [], ◌∷◌, String,
  str_eq, Bool-cases, Option-cases, inl, inr,
}
use terraform_provider_confl.Kafka.Settings.{Provider, Environment}
use terraform_provider_confl.Kafka.AclHandlers.{KafkaRestClient}
use terraform_provider_confl.Kafka.Clients.{with_kafka_rest_client_cases}
use terraform_provider_confl.Http.{status_not_found, response_has_expected_status_code}
use terraform_provider_confl.Topic.Configs.{TopicConfigs, config_of, ConfigEdit}
use terraform_provider_confl.Topic.Applied.{
  edited, Distinct, put_hit, put_miss, config_of_hit, config_of_miss, not_another,
}
use terraform_provider_confl.ClusterConfig.Handlers.{
  ConfigData, ConfigLog, ConfigApi, ConfigHandled, setting_missing, with_config_client,
  extract_cluster_configs, none_removed, read_config_and_set_attributes, kafka_config_read,
  send_cluster_configs, kafka_config_update,
}

-- A name that none of the settings has is not edited.
extract_cluster_configs-other :
    (k : String) (new : TopicConfigs) (v : Option String)
    → config_of k new ≡ none
    → edited k (extract_cluster_configs new) v ≡ v
unfolding extract_cluster_configs
extract_cluster_configs-other k [] v gone = refl
extract_cluster_configs-other k ((n, w) ∷ new) v gone = elim (Bool-cases (str_eq n k)) [
  | inl hit ↦ absurd (let here = config_of_hit k n w new hit in cc)
  | inr miss ↦
      put_miss k n w (extract_cluster_configs ((n, w) ∷ new)) (extract_cluster_configs new) v refl
        miss
      ∙ extract_cluster_configs-other k new v (sym (config_of_miss k n w new miss) ∙ gone)
]

extract_cluster_configs-sets :
    (k : String) (new : TopicConfigs) (x : String) (v : Option String)
    → Distinct new
    → config_of k new ≡ some x
    → edited k (extract_cluster_configs new) v ≡ some x
unfolding extract_cluster_configs config_of
extract_cluster_configs-sets k [] x v apart here = absurd (cc)
extract_cluster_configs-sets k ((n, w) ∷ new) x v (alone, apart) here =
    let all = extract_cluster_configs ((n, w) ∷ new) in
    let others = extract_cluster_configs new in
    elim (Bool-cases (str_eq n k)) [
      | inl hit ↦
          put_hit k n w all others v refl hit
          ∙ extract_cluster_configs-other k new (some w) (not_another new n k none hit alone)
          ∙ sym (config_of_hit k n w new hit)
          ∙ here
      | inr miss ↦
          put_miss k n w all others v refl miss
          ∙ extract_cluster_configs-sets k new x v apart
              (sym (config_of_miss k n w new miss) ∙ here)
    ]

-- A setting that is gone was not there.
none_removed_lem :
    (k : String) (new old : TopicConfigs)
    → none_removed new old ≡ true
    → config_of k new ≡ none
    → config_of k old ≡ none
unfolding none_removed config_of
none_removed_lem k new [] h gone = refl
none_removed_lem k new ((n, u) ∷ old) h gone = elim (Option-cases (config_of n new)) [
  | inl lost ↦ absurd (let h1 = rw (lost, none_removed) at h in cc)
  | inr (x, there) ↦ elim (Bool-cases (str_eq n k)) [
    | inl hit ↦ absurd (let here = not_another new n k (some x) hit there in cc)
    | inr miss ↦
        config_of_miss k n u old miss
        ∙ none_removed_lem k new old (rw (there, none_removed) at h) gone
  ]
]

all_sent :
    (old new : TopicConfigs) (k : String)
    → Distinct new
    → none_removed new old ≡ true
    → edited k (extract_cluster_configs new) (config_of k old) ≡ config_of k new
all_sent old new k apart kept = elim (Option-cases (config_of k new)) [
  | inl gone ↦
      extract_cluster_configs-other k new (config_of k old) gone
      ∙ none_removed_lem k new old kept gone
      ∙ sym gone
  | inr (x, here) ↦ extract_cluster_configs-sets k new x (config_of k old) apart here ∙ sym here
]

no_config_error_at : {r s : ConfigHandled} → r ≡ s → r.0 ≡ none → s.0 ≡ none
no_config_error_at same h = ap (λ r. r.0) (sym same) ∙ h

module _ (env : Environment) (client : Provider) (log : ConfigLog) (d : ConfigData) where
  -- A handler that sends nothing leaves the log as it is.
  with_config_client_log :
      (next : KafkaRestClient → ConfigHandled)
      → ((c : KafkaRestClient) → (next c).1 ≡ log)
      → (with_config_client env client log d next).1 ≡ log
  unfolding with_config_client
  with_config_client_log next h =
      elim (with_kafka_rest_client_cases env client d.blocks (some setting_missing, log, d) next) [
        | inl stop ↦ ap (λ r. r.1) stop
        | inr (c, same) ↦ ap (λ r. r.1) same ∙ h c
      ]

  with_config_client_lem :
      (next : KafkaRestClient → ConfigHandled)
      → (with_config_client env client log d next).0 ≡ none
      → (c : KafkaRestClient) × (with_config_client env client log d next ≡ next c)
  unfolding with_config_client
  with_config_client_lem next h =
      elim (with_kafka_rest_client_cases env client d.blocks (some setting_missing, log, d) next) [
        | inl stop ↦ absurd (let h1 = no_config_error_at stop h in cc)
        | inr made ↦ made
      ]

-- The batch takes every setting from its old value to its new one.
abbrev pub Replaces : ConfigLog → ConfigData → ConfigHandled → Type 0
Replaces log d r =
    (edits : List ConfigEdit) × (r.1 ≡ edits ∷ log)
    × ((name : String)
        → edited name edits (config_of name d.old_configs) ≡ config_of name d.configs)

module _ (world : ConfigApi) (env : Environment) (client : Provider) where
  read_log :
      (log : ConfigLog) (c : KafkaRestClient) (d : ConfigData)
      → (read_config_and_set_attributes world env client log c d).1 ≡ log
  unfolding read_config_and_set_attributes
  read_log log c d = elim (Option-cases (world.list log c).err) [
    | inl fine ↦ rw (fine, read_config_and_set_attributes) refl
    | inr (e, bad) ↦
        elim (Bool-cases (
          response_has_expected_status_code (world.list log c).resp status_not_found
          && not d.is_new_resource)) [
            | inl gone ↦ rw (bad, gone, read_config_and_set_attributes) refl
            | inr other ↦ rw (bad, other, read_config_and_set_attributes) refl
          ]
  ]

  kafka_config_read_log :
      (log : ConfigLog) (d : ConfigData) → (kafka_config_read world env client log d).1 ≡ log
  unfolding kafka_config_read
  kafka_config_read_log log d =
      with_config_client_log env client log d
        (λ c. read_config_and_set_attributes world env client log c d) (λ c. read_log log c d)

  send_cluster_configs_log :
      (after : ConfigLog → KafkaRestClient → ConfigHandled) (log : ConfigLog) (d : ConfigData)
      (c : KafkaRestClient)
      → ((l : ConfigLog) (c : KafkaRestClient) → (after l c).1 ≡ l)
      → (send_cluster_configs world env client after log d c).1
        ≡ extract_cluster_configs d.configs ∷ log
  unfolding send_cluster_configs
  send_cluster_configs_log after log d c h =
      elim (Option-cases (world.update log c (extract_cluster_configs d.configs)).err) [
        | inl fine ↦ rw (fine, send_cluster_configs) (h (extract_cluster_configs d.configs ∷ log) c)
        | inr (e, bad) ↦ rw (bad, send_cluster_configs) refl
      ]

  -- When an update that changes the settings ends without an error, and the new settings have each name
  -- once, then it has sent one batch, whose edits, made in their order, give every setting, of any name,
  -- its new value from its old one.
  pub kafka_config_update-Replaces :
      (others : Bool) (log : ConfigLog) (d : ConfigData)
      → Distinct d.configs
      → (kafka_config_update world env client others true log d).0 ≡ none
      → Replaces log d (kafka_config_update world env client others true log d)
  unfolding kafka_config_update
  kafka_config_update-Replaces true log d apart h = absurd (cc)
  kafka_config_update-Replaces false log d apart h =
      elim (Bool-cases (none_removed d.configs d.old_configs)) [
        | inr lost ↦ absurd (let h1 = rw (lost, kafka_config_update) at h in cc)
        | inl kept ↦
            let after : ConfigLog → KafkaRestClient → ConfigHandled =
              λ l c. kafka_config_read world env client l d in
            let next = send_cluster_configs world env client after log d in
            let shape : kafka_config_update world env client false true log d
                ≡ with_config_client env client log d next =
              rw (kept, kafka_config_update) refl in
            let (c, made) =
              with_config_client_lem env client log d next (no_config_error_at shape h) in
            (
              extract_cluster_configs d.configs,
              ap (λ r. r.1) (shape ∙ made)
                  ∙ send_cluster_configs_log after log d c (λ l c. kafka_config_read_log l d),
              λ k. all_sent d.old_configs d.configs k apart kept,
            )
      ]
