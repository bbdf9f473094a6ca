-- ===== src/Schema/Handlers.antt =====
-- internal/provider/resource_schema.go: the handlers of the resource. The request's JSON is for the
-- log, and building it does not fail. A wait after a call is left out.
use terraform_provider_confl.Base.{Bool, true, false, not, Option, none, some, ◌∷◌, if◌then◌else◌}
use terraform_provider_confl.Kafka.{Text}
use terraform_provider_confl.Kafka.Settings.{Setting, given, missing, Environment}
use terraform_provider_confl.Oauth.Decimal.{itoa}
use terraform_provider_confl.Schema.Id.{
  create_schema_id, extract_subject_info_from_tf_id, extract_schema_identifier_from_tf_id,
  extract_subject_name_from_tf_id,
}
use terraform_provider_confl.Schema.Settings.{
  SchemaProvider, extract_schema_registry_rest_endpoint,
  extract_schema_registry_cluster_api_key_and_api_secret, extract_schema_registry_cluster_id,
}
use terraform_provider_confl.Schema.Request.{
  RegisterSchemaRequest, build_schema_references, created_ruleset, requested_metadata,
}
use terraform_provider_confl.Schema.Registry.{
  SchemaData, SchemaRegistryRestClient, tested, registered, deleted, Log, SchemaApi, api,
  setting_missing, invalid_format, only_some_can_be_updated, recreate_on_update_is_set,
  not_compatible,
}
use terraform_provider_confl.Schema.Loads.{
  SchemaHandled, set_schema_id, read_schema_registry_config_and_set_attributes,
}

abbrev pub schema_rest_client :
    SchemaProvider
    → (has_external_access_token : Bool) → (rest_endpoint cluster_id : Text) → Text × Text
    → SchemaRegistryRestClient
schema_rest_client client has_external_access_token rest_endpoint cluster_id credentials = record {
  rest_endpoint = rest_endpoint;
  cluster_id = cluster_id;
  cluster_api_key = credentials.0;
  cluster_api_secret = credentials.1;
  is_metadata_set_in_provider_block = client.is_schema_registry_metadata_set;
  has_external_access_token = has_external_access_token;
}

abbrev set_schema : Text → SchemaData → SchemaData
set_schema content d = record d { now = record d.now { schema = content } }

-- The request of `schemaCreate`.
unfoldable pub create_schema_request : SchemaData → RegisterSchemaRequest
unfolding build_schema_references created_ruleset requested_metadata
create_schema_request d = record {
  schema_type = d.now.format;
  schema = d.now.schema;
  references = build_schema_references d.now.schema_reference;
  rule_set = created_ruleset d.old.rule_set d.now.rule_set;
  metadata = requested_metadata d.now.metadata;
}

-- What the SDK says has changed: anything but the attributes that can be updated,
-- `recreate_on_update`, and any of the schema, its references, its ruleset and its metadata.
pub record SchemaChanges : Type 0 where
  pub others : Bool
  pub recreate_on_update : Bool
  pub contents : Bool

abbrev pub read_or_refuse : Log → SchemaData → Option Text → (Text → SchemaHandled) → SchemaHandled
read_or_refuse log d none next = (some invalid_format, log, d)
read_or_refuse log d (some part) next = next part

abbrev import_or_refuse :
    Log
    → SchemaData
    → Option (Text × Text × Text)
    → (Text × Text × Text → SchemaHandled)
    → SchemaHandled
import_or_refuse log d none next = (some invalid_format, log, d)
import_or_refuse log d (some parts) next = next parts

-- The updated attributes are those before the change again.
abbrev reverted : SchemaData → SchemaData
reverted d = record d {
  now = record d.now {
    schema = d.old.schema;
    schema_reference = d.old.schema_reference;
    rule_set = d.old.rule_set;
    metadata = d.old.metadata;
  };
}

abbrev pub need_setting {ℓ} :
    {A : Type ℓ} → Log → SchemaData → Setting A → (A → SchemaHandled) → SchemaHandled
need_setting log d (given a) next = next a
need_setting log d missing next = (some setting_missing, log, d)

module _ (world : SchemaApi) (env : Environment) (client : SchemaProvider)
    (has_external_access_token : Bool) where
  -- The settings of all handlers but the import, which come in this order.
  unfoldable pub with_rest_client :
      Log → SchemaData → (SchemaRegistryRestClient → SchemaHandled) → SchemaHandled
  unfolding extract_schema_registry_rest_endpoint extract_schema_registry_cluster_id
      extract_schema_registry_cluster_api_key_and_api_secret
  with_rest_client log d next =
      need_setting log d (extract_schema_registry_rest_endpoint env client d.blocks false)
        (λ rest_endpoint.
          need_setting log d (extract_schema_registry_cluster_id env client d.blocks false)
            (λ cluster_id.
              need_setting log d
                (extract_schema_registry_cluster_api_key_and_api_secret env client d.blocks false)
                (λ credentials. next (
                  schema_rest_client client has_external_access_token rest_endpoint cluster_id
                    credentials))))

  unfoldable pub schema_read : Log → SchemaData → SchemaHandled
  unfolding with_rest_client extract_schema_identifier_from_tf_id extract_subject_name_from_tf_id
      read_schema_registry_config_and_set_attributes
  schema_read log d = with_rest_client log d (λ c.
      read_or_refuse log d (extract_schema_identifier_from_tf_id d.id) (λ schema_identifier.
        read_or_refuse log d (extract_subject_name_from_tf_id d.id) (λ subject_name.
          read_schema_registry_config_and_set_attributes world log c subject_name schema_identifier
            d)))

  -- The call that registers, and what follows it.
  unfoldable pub register_schema :
      SchemaRegistryRestClient → RegisterSchemaRequest → Log → SchemaData → SchemaHandled
  unfolding create_schema_id schema_read
  register_schema c request log d =
      let reply = world.register log c request d.now.subject_name in
      let after : Log = registered request d.now.subject_name ∷ log in
      elim reply.err [
        | some err ↦ (some (api err), after, d)
        | none ↦ schema_read after (
            set_schema_id
              (create_schema_id c.cluster_id d.now.subject_name reply.value d.recreate_on_update) d)
      ]

  -- The call that validates, and what follows it.
  unfoldable pub validate_and_register :
      SchemaRegistryRestClient → RegisterSchemaRequest → Log → SchemaData → SchemaHandled
  unfolding register_schema
  validate_and_register c request log d =
      let reply = world.test_compatibility_for_subject log c request d.now.subject_name in
      let after : Log = tested request d.now.subject_name ∷ log in
      elim reply.err [
        | some err ↦ (some (api err), after, d)
        | none ↦
            if not reply.value.is_compatible
            then (some (not_compatible reply.value.messages), after, set_schema d.old.schema d)
            else register_schema c request after d
      ]

  unfoldable pub schema_create : Log → SchemaData → SchemaHandled
  unfolding with_rest_client create_schema_request validate_and_register
  schema_create log d =
      with_rest_client log d (λ c. validate_and_register c (create_schema_request d) log d)

  -- One call that deletes, and what follows it.
  unfoldable pub execute_schema_delete :
      SchemaRegistryRestClient
      → (is_hard_delete : Bool) → Log
      → SchemaData
      → (Log → SchemaHandled)
      → SchemaHandled
  execute_schema_delete c is_hard_delete log d next =
      let schema_version = itoa d.now.version in
      let after : Log = deleted d.now.subject_name schema_version is_hard_delete ∷ log in
      elim (world.delete_schema_version log c d.now.subject_name schema_version
        is_hard_delete).err [ some err ↦ (some (api err), after, d) | none ↦ next after ]

  unfoldable pub schema_delete : Log → SchemaData → SchemaHandled
  unfolding with_rest_client execute_schema_delete
  schema_delete log d = with_rest_client log d (λ c. execute_schema_delete c false log d (λ after.
      if d.hard_delete
      then execute_schema_delete c true after d (λ last. (none, last, d))
      else (none, after, d)))

  unfoldable pub update_contents : SchemaChanges → Log → SchemaData → SchemaHandled
  unfolding schema_create schema_read
  update_contents changes log d =
      if changes.contents
      then (if d.recreate_on_update
          then (some recreate_on_update_is_set, log, reverted d)
          else schema_create log d)
      else schema_read log d

  unfoldable pub schema_update : SchemaChanges → Log → SchemaData → SchemaHandled
  unfolding with_rest_client create_schema_id update_contents
  schema_update changes log d =
      if changes.others
      then (some only_some_can_be_updated, log, d)
      else if changes.recreate_on_update
      then with_rest_client log d (λ c. update_contents changes log (
          set_schema_id
            (create_schema_id c.cluster_id d.now.subject_name d.now.schema_identifier
              d.recreate_on_update)
            d))
      else update_contents changes log d

  unfoldable pub schema_import : Log → SchemaData → SchemaHandled
  unfolding extract_schema_registry_rest_endpoint
      extract_schema_registry_cluster_api_key_and_api_secret extract_subject_info_from_tf_id
      read_schema_registry_config_and_set_attributes
  schema_import log d =
      need_setting log d (extract_schema_registry_rest_endpoint env client d.blocks true)
        (λ rest_endpoint.
          need_setting log d
            (extract_schema_registry_cluster_api_key_and_api_secret env client d.blocks true)
            (λ credentials. import_or_refuse log d (extract_subject_info_from_tf_id d.id) (λ parts.
              read_schema_registry_config_and_set_attributes world log
                (schema_rest_client client has_external_access_token rest_endpoint parts.0
                  credentials)
                parts.1 parts.2 (record d { is_new_resource = true }))))
