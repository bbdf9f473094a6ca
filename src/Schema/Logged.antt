-- ===== src/Schema/Logged.antt =====
-- internal/provider/resource_schema.go: which calls are in the log after the settings and after a read.
use terraform_provider_confl.Base.{
  ◌≡◌, ◌≢◌, refl, ap, ◌∙◌, Bool, false, Option, none, some, inl, inr, ◌⊎◌,
}
use terraform_provider_confl.Kafka.{Text}
use terraform_provider_confl.Kafka.Settings.{Setting, given, missing, Environment}
use terraform_provider_confl.Schema.Id.{
  extract_schema_identifier_from_tf_id, extract_subject_name_from_tf_id,
}
use terraform_provider_confl.Schema.Settings.{
  SchemaProvider, extract_schema_registry_cluster_id, extract_schema_registry_rest_endpoint,
  extract_schema_registry_cluster_api_key_and_api_secret,
}
use terraform_provider_confl.Schema.Registry.{
  SchemaData, SchemaRegistryRestClient, Log, SchemaApi, setting_missing,
}
use terraform_provider_confl.Schema.Loads.{
  SchemaHandled, read_schema_registry_config_and_set_attributes,
}
use terraform_provider_confl.Schema.Handlers.{
  need_setting, with_rest_client, read_or_refuse, schema_read, schema_rest_client,
}

abbrev pub stopped : Log → SchemaData → SchemaHandled
stopped log d = (some setting_missing, log, d)

pub need_setting_cases {ℓ} :
    {A : Type ℓ} (log : Log) (d : SchemaData) (s : Setting A) (next : A → SchemaHandled)
    → (need_setting log d s next ≡ stopped log d) ⊎ ((a : A) × (need_setting log d s next ≡ next a))
need_setting_cases log d (given a) next = inr (a, refl)
need_setting_cases log d missing next = inl refl

pub some_not_none {ℓ} : {A : Type ℓ} → {a : A} → some a ≢ none
some_not_none h = cc

module _ (world : SchemaApi) (env : Environment) (client : SchemaProvider) (token : Bool) where
  pub with_rest_client_cases :
      (log : Log) (d : SchemaData) (next : SchemaRegistryRestClient → SchemaHandled)
      → (with_rest_client world env client token log d next ≡ stopped log d)
        ⊎ ((c : SchemaRegistryRestClient) × (with_rest_client world env client token log d next
              ≡ next c))
  unfolding with_rest_client
  with_rest_client_cases log d next =
      elim (need_setting_cases log d
        (extract_schema_registry_rest_endpoint env client d.blocks false)
        (λ rest_endpoint.
          need_setting log d (extract_schema_registry_cluster_id env client d.blocks false)
            (λ cluster_id.
              need_setting log d
                (extract_schema_registry_cluster_api_key_and_api_secret env client d.blocks false)
                (λ credentials.
                  next (schema_rest_client client token rest_endpoint cluster_id credentials))))) [
                    | inl none_there ↦ inl none_there
                    | inr (rest_endpoint, first) ↦
                        elim (need_setting_cases log d
                          (extract_schema_registry_cluster_id env client d.blocks false)
                          (λ cluster_id.
                            need_setting log d
                              (extract_schema_registry_cluster_api_key_and_api_secret env client
                                d.blocks false)
                              (λ credentials. next (
                                schema_rest_client client token rest_endpoint cluster_id
                                  credentials)))) [
                                    | inl none_there ↦ inl (first ∙ none_there)
                                    | inr (cluster_id, second) ↦
                                        elim (need_setting_cases log d
                                          (extract_schema_registry_cluster_api_key_and_api_secret
                                            env client d.blocks false)
                                          (λ credentials. next (
                                            schema_rest_client client token rest_endpoint cluster_id
                                              credentials))) [
                                                | inl none_there ↦ inl (first ∙ second ∙ none_there)
                                                | inr (credentials, third) ↦
                                                    inr (_, first ∙ second ∙ third)
                                              ]
                                  ]
                  ]

  pub read_or_refuse_log :
      (log : Log) (d : SchemaData) (o : Option Text) (next : Text → SchemaHandled)
      → ((part : Text) → (next part).1 ≡ log)
      → (read_or_refuse log d o next).1 ≡ log
  read_or_refuse_log log d none next h = refl
  read_or_refuse_log log d (some part) next h = h part

  -- A read makes no call that is in the log.
  pub schema_read_log :
      (log : Log) (d : SchemaData) → (schema_read world env client token log d).1 ≡ log
  unfolding schema_read read_schema_registry_config_and_set_attributes
  schema_read_log log d =
      elim (with_rest_client_cases log d (λ c.
        read_or_refuse log d (extract_schema_identifier_from_tf_id d.id) (λ schema_identifier.
          read_or_refuse log d (extract_subject_name_from_tf_id d.id) (λ subject_name.
            read_schema_registry_config_and_set_attributes world log c subject_name
              schema_identifier d)))) [
                | inl none_there ↦ ap (λ r. r.1) none_there
                | inr (c, same) ↦
                    ap (λ r. r.1) same
                    ∙ read_or_refuse_log log d (extract_schema_identifier_from_tf_id d.id) _ (λ i.
                      read_or_refuse_log log d (extract_subject_name_from_tf_id d.id) _ (λ n. refl))
              ]
