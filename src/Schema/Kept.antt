-- ===== src/Schema/Kept.antt =====
-- A read of a schema that is in the state.
use terraform_provider_confl.Base.{
  ℕ, ◌≡◌, refl, sym, ap, ◌∙◌, Bool, true, false, Option, none, some, [], inl, inr, ◌⊎◌,
}
use terraform_provider_confl.Kafka.{Text}
use terraform_provider_confl.Kafka.Separated.{Lacks}
use terraform_provider_confl.Kafka.Settings.{given, Environment}
use terraform_provider_confl.Oauth.Decimal.{itoa}
use terraform_provider_confl.Schema.Id.{
  slash, last_part, create_schema_id, is_latest_schema, extract_subject_info_from_tf_id,
  extract_schema_identifier_from_tf_id, extract_subject_name_from_tf_id,
}
use terraform_provider_confl.Schema.IdTrip.{
  is_latest_schema-itoa, extract_subject_info_from_tf_id-create_schema_id,
}
use terraform_provider_confl.Schema.Settings.{
  SchemaProvider, extract_schema_registry_cluster_id, extract_schema_registry_rest_endpoint,
  extract_schema_registry_cluster_api_key_and_api_secret,
}
use terraform_provider_confl.Schema.Registry.{
  SchemaData, SrSchema, SchemaRegistryRestClient, Log, SchemaApi, SchemaError,
}
use terraform_provider_confl.Schema.Loads.{
  load_schema, after_load_schema, set_schema_attributes, SchemaHandled,
  read_schema_registry_config_and_set_attributes,
}
use terraform_provider_confl.Schema.Handlers.{with_rest_client, read_or_refuse, schema_read}
use terraform_provider_confl.Schema.Found.{
  ended, need_setting-ended, load_schema_lem, after_load_schema_lem,
}

module _ (world : SchemaApi) (env : Environment) (client : SchemaProvider) (token : Bool) where
  pub with_rest_client-ended :
      (log log' : Log) (d d' : SchemaData) (next : SchemaRegistryRestClient → SchemaHandled)
      → with_rest_client world env client token log d next ≡ ended log' d'
      → (c : SchemaRegistryRestClient) × (extract_schema_registry_cluster_id env client d.blocks
            false
          ≡ given c.cluster_id)
        × (next c ≡ ended log' d')
  unfolding with_rest_client
  with_rest_client-ended log log' d d' next h =
      let (endpoint, _, h1) =
        need_setting-ended log log' d d'
          (extract_schema_registry_rest_endpoint env client d.blocks false) _ h in
      let (cluster_id, cluster, h2) =
        need_setting-ended log log' d d'
          (extract_schema_registry_cluster_id env client d.blocks false) _ h1 in
      let (credentials, _, h3) =
        need_setting-ended log log' d d'
          (extract_schema_registry_cluster_api_key_and_api_secret env client d.blocks false) _ h2 in
      (_, cluster, h3)

given_inj {ℓ} : {A : Type ℓ} → {a b : A} → given a ≡ given b → a ≡ b
given_inj h = cc

some_inj {ℓ} : {A : Type ℓ} → {a b : A} → some a ≡ some b → a ≡ b
some_inj h = cc

-- The attributes that are set from a schema with the name and the identifier of the resource.
set_schema_attributes-kept :
    (c : SchemaRegistryRestClient) (s : SrSchema) (d : SchemaData) (cluster_id n : Text) (i : ℕ)
    (r : Bool)
    → c.cluster_id ≡ cluster_id
    → s.subject ≡ n
    → (is_latest_schema (last_part i r) ≡ false → itoa s.id ≡ last_part i r)
    → d.recreate_on_update ≡ r
    → ((set_schema_attributes c (is_latest_schema (last_part i r)) s d).id
        ≡ create_schema_id cluster_id n i r)
      × ((set_schema_attributes c (is_latest_schema (last_part i r)) s d).recreate_on_update ≡ r)
unfolding set_schema_attributes create_schema_id
set_schema_attributes-kept c s d cluster_id n i true same name number recreate =
    let digits = number (is_latest_schema-itoa i) in
    (rw (recreate, same, name, digits) refl, rw recreate refl)
set_schema_attributes-kept c s d cluster_id n i false same name number recreate = (
  rw (recreate, same, name) (unfold is_latest_schema in refl),
  rw recreate (unfold is_latest_schema in refl),
)

module _ (world : SchemaApi) (env : Environment) (client : SchemaProvider) (token : Bool)
    (cluster_id n : Text) (i : ℕ) where
  read_parts_kept :
      (c : SchemaRegistryRestClient) (log log' : Log) (d d' : SchemaData)
      → c.cluster_id ≡ cluster_id
      → d.is_new_resource ≡ false
      → d.id ≡ create_schema_id cluster_id n i d.recreate_on_update
      → read_schema_registry_config_and_set_attributes world log c n
          (last_part i d.recreate_on_update)
          d
        ≡ ended log' d'
      → (d'.id ≡ []) ⊎ ((d'.id ≡ d.id) × (d'.recreate_on_update ≡ d.recreate_on_update))
  unfolding read_schema_registry_config_and_set_attributes
  read_parts_kept c log log' d d' same old made h =
      let last = last_part i d.recreate_on_update in
      let l = load_schema world log c n last in
      let after : Path (Option SchemaError × SchemaData)
          (after_load_schema c (is_latest_schema last) l d) (none, d') =
        ap (λ r. (r.0, r.2)) h in
      elim (after_load_schema_lem c (is_latest_schema last) l d d' old after) [
        | inl gone ↦ inl gone
        | inr (s, there, set_there) ↦
            let (name, number) = load_schema_lem world log c n last s there in
            let (id_kept, recreate_kept) =
              set_schema_attributes-kept c s d cluster_id n i d.recreate_on_update same name number
                refl in
            inr (
              ap (λ u. u.id) set_there ∙ id_kept ∙ sym made,
              ap (λ u. u.recreate_on_update) set_there ∙ recreate_kept,
            )
      ]

  -- A read without an error of a schema that is in the state, under the identifier that is made for it,
  -- either takes it out of the state or leaves its identifier and `recreate_on_update` as they were, if
  -- the resource is not new and the Schema Registry is the same, with an id that has no `/`.
  pub schema_read-kept :
      (log log' : Log) (d d' : SchemaData)
      → extract_schema_registry_cluster_id env client d.blocks false ≡ given cluster_id
      → Lacks slash cluster_id
      → d.is_new_resource ≡ false
      → d.id ≡ create_schema_id cluster_id n i d.recreate_on_update
      → schema_read world env client token log d ≡ ended log' d'
      → (d'.id ≡ []) ⊎ ((d'.id ≡ d.id) × (d'.recreate_on_update ≡ d.recreate_on_update))
  unfolding schema_read extract_schema_identifier_from_tf_id extract_subject_name_from_tf_id
  schema_read-kept log log' d d' cluster plain old made h =
      let (c, used, h1) =
        with_rest_client-ended world env client token log log' d d'
          (λ c.
            read_or_refuse log d (extract_schema_identifier_from_tf_id d.id) (λ schema_identifier.
              read_or_refuse log d (extract_subject_name_from_tf_id d.id) (λ subject_name.
                read_schema_registry_config_and_set_attributes world log c subject_name
                  schema_identifier d)))
          h in
      let parts : extract_subject_info_from_tf_id d.id
          ≡ some (cluster_id, n, last_part i d.recreate_on_update) =
        ap extract_subject_info_from_tf_id made
        ∙ extract_subject_info_from_tf_id-create_schema_id cluster_id n i d.recreate_on_update
            plain in
      let h2 = rw parts at h1 in
      read_parts_kept c log log' d d' (given_inj (sym used ∙ cluster)) old made h2
