-- ===== src/Schema/Plan.antt =====
-- internal/provider/resource_schema.go: what is checked while a plan is made. The new value of an
-- attribute is set in the resource's data; the SDK's `SetNew` does not fail here.
use terraform_provider_confl.Base.{
  ℕ, Bool, true, false, not, ◌&&◌, ◌||◌, Option, none, some, ◌==◌, if◌then◌else◌,
}
use terraform_provider_confl.Http.{status_not_found, response_has_expected_status_code}
use terraform_provider_confl.Http.Descriptive.{ApiError}
use terraform_provider_confl.Kafka.{Text}
use terraform_provider_confl.Kafka.Acl.{text_eq}
use terraform_provider_confl.Kafka.Settings.{is_set}
use terraform_provider_confl.Schema.Settings.{SchemaProvider}
use terraform_provider_confl.Schema.Request.{
  RegisterSchemaRequest, build_schema_references, planned_ruleset, requested_metadata,
}
use terraform_provider_confl.Schema.Registry.{
  SchemaData, SrSchema, SchemaRegistryRestClient, Log, SchemaApi, SchemaError, api,
  recreate_on_update_is_set, not_compatible,
}
use terraform_provider_confl.Schema.Handlers.{schema_rest_client}

-- The request of `SetSchemaDiff`.
unfoldable pub planned_schema_request : SchemaData → RegisterSchemaRequest
unfolding build_schema_references planned_ruleset requested_metadata
planned_schema_request d = record {
  schema_type = d.now.format;
  schema = d.now.schema;
  references = build_schema_references d.now.schema_reference;
  rule_set = planned_ruleset d.old.rule_set d.now.rule_set;
  metadata = requested_metadata d.now.metadata;
}

-- `diff.HasChange(paramSchema)`
unfoldable pub has_schema_change : SchemaData → Bool
has_schema_change d = not (text_eq d.old.schema d.now.schema)

-- `setOldSchemaValue`
unfoldable pub set_old_schema_value : SchemaData → SchemaData
set_old_schema_value d = record d { now = record d.now { schema = d.old.schema } }

-- The schema that a lookup finds, or none; or an error.
pub data LookedUp : Type 0 where
  exists_as : SrSchema → LookedUp
  not_registered : LookedUp
  lookup_failed : ApiError → LookedUp

-- `HasRuleSet()`
abbrev pub has_rule_set : RegisterSchemaRequest → Bool
has_rule_set request = elim request.rule_set [ none ↦ false | some r ↦ true ]

-- `NewRuleSet()`
abbrev pub with_new_rule_set : RegisterSchemaRequest → RegisterSchemaRequest
with_new_rule_set request = record request {
  rule_set = some (record { domain_rules = none; migration_rules = none; encoding_rules = none });
}

abbrev pub Matched : Type 0
Matched = Option ApiError × Bool

abbrev pub or_normalized : LookedUp → LookedUp → LookedUp
or_normalized (exists_as s) normalized = exists_as s
or_normalized not_registered normalized = normalized
or_normalized (lookup_failed err) normalized = lookup_failed err

abbrev pub is_own : ℕ → LookedUp → Matched
is_own schema_identifier (exists_as s) = (none, s.id == schema_identifier)
is_own schema_identifier not_registered = (none, false)
is_own schema_identifier (lookup_failed err) = (some err, false)

abbrev pub second_lookup : SchemaData → Matched → Option SchemaError × SchemaData
second_lookup d (some err, is_matched) = (some (api err), d)
second_lookup d (none, true) = (none, set_old_schema_value d)
second_lookup d (none, false) = (none, d)

abbrev pub first_lookup :
    SchemaData
    → RegisterSchemaRequest
    → Matched
    → (with_ruleset : Matched) → Option SchemaError × SchemaData
first_lookup d request (some err, is_matched) with_ruleset = (some (api err), d)
first_lookup d request (none, true) with_ruleset = (none, set_old_schema_value d)
first_lookup d request (none, false) with_ruleset =
    if not (has_rule_set request) then second_lookup d with_ruleset else (none, d)

abbrev pub refuse_recreation : Option SchemaError × SchemaData → Option SchemaError × SchemaData
refuse_recreation (some e, d) = (some e, d)
refuse_recreation (none, d) =
    if d.recreate_on_update && has_schema_change d
    then (some recreate_on_update_is_set, d)
    else (none, d)

-- The client of a plan: its settings are the provider's, or else the resource's.
unfoldable pub planned_rest_client :
    SchemaProvider → (has_external_access_token : Bool) → SchemaData → SchemaRegistryRestClient
planned_rest_client client has_external_access_token d =
    if client.is_schema_registry_metadata_set
    then schema_rest_client client has_external_access_token client.schema_registry_rest_endpoint
        client.schema_registry_cluster_id
        (client.schema_registry_api_key, client.schema_registry_api_secret)
    else schema_rest_client client has_external_access_token d.blocks.rest_endpoint
        d.blocks.cluster_id (d.blocks.api_key, d.blocks.api_secret)

-- Whether the attributes that the checks need are there.
unfoldable pub can_be_checked : SchemaProvider → SchemaRegistryRestClient → Bool
can_be_checked client c =
    is_set c.rest_endpoint
    && is_set c.cluster_id
    && (client.is_oauth_enabled || is_set c.cluster_api_key && is_set c.cluster_api_secret)

module _ (world : SchemaApi) where
  -- `log` has the calls before the plan: none of a plan changes the registry.
  unfoldable pub schema_lookup_by_normalize :
      Log
      → SchemaRegistryRestClient
      → RegisterSchemaRequest
      → (subject_name : Text) → (should_normalize : Bool) → LookedUp
  unfolding response_has_expected_status_code
  schema_lookup_by_normalize log c request subject_name should_normalize =
      let reply = world.look_up_schema_under_subject log c request subject_name should_normalize in
      if response_has_expected_status_code reply.resp status_not_found
        || response_has_expected_status_code reply.resp 422
      then not_registered
      else elim reply.err [ some err ↦ lookup_failed err | none ↦ exists_as reply.value ]

  unfoldable pub schema_lookup :
      Log → SchemaRegistryRestClient → RegisterSchemaRequest → (subject_name : Text) → LookedUp
  unfolding schema_lookup_by_normalize
  schema_lookup log c request subject_name =
      or_normalized (schema_lookup_by_normalize log c request subject_name false)
        (schema_lookup_by_normalize log c request subject_name true)

  unfoldable pub try_schema_lookup :
      Log
      → SchemaData
      → SchemaRegistryRestClient
      → RegisterSchemaRequest
      → (subject_name : Text) → Matched
  unfolding schema_lookup
  try_schema_lookup log d c request subject_name =
      is_own d.now.schema_identifier (schema_lookup log c request subject_name)

  unfoldable pub schema_lookup_check :
      Log
      → SchemaData
      → SchemaRegistryRestClient
      → RegisterSchemaRequest
      → (subject_name : Text) → Option SchemaError × SchemaData
  unfolding try_schema_lookup set_old_schema_value
  schema_lookup_check log d c request subject_name =
      first_lookup d request (try_schema_lookup log d c request subject_name)
        (try_schema_lookup log d c (with_new_rule_set request) subject_name)

  unfoldable pub schema_validate_check :
      Log
      → SchemaRegistryRestClient
      → RegisterSchemaRequest
      → (subject_name : Text) → Option SchemaError
  schema_validate_check log c request subject_name =
      let reply = world.test_compatibility_for_subject log c request subject_name in
      elim reply.err [
        | some err ↦ some (api err)
        | none ↦
            if not reply.value.is_compatible
            then some (not_compatible reply.value.messages)
            else none
      ]

  unfoldable pub checked_schema_diff :
      SchemaRegistryRestClient
      → RegisterSchemaRequest
      → Log
      → SchemaData
      → Option SchemaError × SchemaData
  unfolding schema_lookup_check has_schema_change
  checked_schema_diff c request log d =
      if not (is_set d.id)
      then (none, d)
      else refuse_recreation (schema_lookup_check log d c request d.now.subject_name)

  unfoldable pub validated_schema_diff :
      SchemaRegistryRestClient
      → RegisterSchemaRequest
      → Log
      → SchemaData
      → Option SchemaError × SchemaData
  unfolding schema_validate_check checked_schema_diff
  validated_schema_diff c request log d =
      if d.skip_validation_during_plan
      then checked_schema_diff c request log d
      else elim (schema_validate_check log c request d.now.subject_name) [
        | some e ↦ (some e, d)
        | none ↦ checked_schema_diff c request log d
      ]

  unfoldable pub set_schema_diff :
      SchemaProvider
      → (has_external_access_token : Bool) → Log
      → SchemaData
      → Option SchemaError × SchemaData
  unfolding has_schema_change planned_rest_client can_be_checked planned_schema_request
      validated_schema_diff
  set_schema_diff client has_external_access_token log d =
      let c = planned_rest_client client has_external_access_token d in
      if not (has_schema_change d)
      then (none, d)
      else if not (can_be_checked client c)
      then (none, d)
      else validated_schema_diff c (planned_schema_request d) log d
