-- ===== src/Schema/Imported.antt =====
-- An import of a schema that is not there.
use terraform_provider_confl.Base.{
  ◌≡◌, refl, ap, ◌∙◌, Bool, true, false, none, some, [], if◌then◌else◌,
}
use terraform_provider_confl.Kafka.{Text}
use terraform_provider_confl.Kafka.Settings.{given, Environment}
use terraform_provider_confl.Schema.Id.{
  create_schema_id, is_latest_schema, extract_subject_info_from_tf_id,
}
use terraform_provider_confl.Schema.Settings.{
  SchemaProvider, extract_schema_registry_rest_endpoint,
  extract_schema_registry_cluster_api_key_and_api_secret,
}
use terraform_provider_confl.Schema.Registry.{
  SchemaData, no_schema, SchemaRegistryRestClient, Log, SchemaApi,
}
use terraform_provider_confl.Schema.Loads.{
  loaded, find_schema_by_id, load_schema_by_id, set_schema_attributes,
  read_schema_registry_config_and_set_attributes,
}
use terraform_provider_confl.Schema.Handlers.{schema_rest_client, schema_import}

empty_loaded :
    (world : SchemaApi) (log : Log) (c : SchemaRegistryRestClient) (n i : Text)
    → (world.get_schemas log c n).err ≡ none
    → find_schema_by_id (world.get_schemas log c n).value i n ≡ (no_schema, false)
    → load_schema_by_id world log c n i ≡ loaded no_schema true
unfolding load_schema_by_id
empty_loaded world log c n i listed absent_there = rw (listed, absent_there, load_schema_by_id) refl

empty_read :
    (world : SchemaApi) (log : Log) (c : SchemaRegistryRestClient) (n i : Text) (d : SchemaData)
    → d.is_new_resource ≡ true
    → is_latest_schema i ≡ false
    → load_schema_by_id world log c n i ≡ loaded no_schema true
    → read_schema_registry_config_and_set_attributes world log c n i d
      ≡ (none, log, set_schema_attributes c false no_schema d)
unfolding read_schema_registry_config_and_set_attributes
empty_read world log c n i d new number there = rw (number, there, new) refl

empty_recreate : (b : Bool) → (if b then true else true) ≡ true
empty_recreate true = refl
empty_recreate false = refl

-- An import of a schema, by a number, that is not among those with its subject's prefix ends without an error: with empty
-- attributes, under an identifier without a subject, if the settings are given and the list can be
-- read.
pub schema_import_unnoticed :
    (world : SchemaApi) (env : Environment) (client : SchemaProvider) (token : Bool) (log : Log)
    (d : SchemaData) (rest_endpoint cluster_id n i : Text) (credentials : Text × Text)
    → extract_schema_registry_rest_endpoint env client d.blocks true ≡ given rest_endpoint
    → extract_schema_registry_cluster_api_key_and_api_secret env client d.blocks true
      ≡ given credentials
    → extract_subject_info_from_tf_id d.id ≡ some (cluster_id, n, i)
    → is_latest_schema i ≡ false
    → (world.get_schemas log
        (schema_rest_client client token rest_endpoint cluster_id credentials)
        n).err
      ≡ none
    → find_schema_by_id
        (world.get_schemas log
          (schema_rest_client client token rest_endpoint cluster_id credentials)
          n).value
        i
        n
      ≡ (no_schema, false)
    → ((schema_import world env client token log d).0 ≡ none)
      × ((schema_import world env client token log d).2.now.schema ≡ [])
      × ((schema_import world env client token log d).2.now.subject_name ≡ [])
      × ((schema_import world env client token log d).2.id ≡ create_schema_id cluster_id [] 0 true)
unfolding schema_import set_schema_attributes
schema_import_unnoticed world env client token log d rest_endpoint cluster_id n i credentials
      endpoint key parts number listed absent_there =
    let c = schema_rest_client client token rest_endpoint cluster_id credentials in
    let new : SchemaData = record d { is_new_resource = true } in
    let whole : schema_import world env client token log d
        ≡ (none, log, set_schema_attributes c false no_schema new) =
      rw (endpoint, key, parts, schema_import)
        (empty_read world log c n i new refl number
          (empty_loaded world log c n i listed absent_there)) in
    (
      ap (λ r. r.0) whole,
      ap (λ r. r.2.now.schema) whole,
      ap (λ r. r.2.now.subject_name) whole,
      ap (λ r. r.2.id) whole
          ∙ ap (create_schema_id cluster_id [] 0) (empty_recreate d.recreate_on_update),
    )
