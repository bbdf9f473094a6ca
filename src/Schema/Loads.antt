-- ===== src/Schema/Loads.antt =====
-- internal/provider/resource_schema.go: how a schema is found, and how a resource is set from it.
-- A handler takes and returns the resource's data; setting an attribute does not fail. An API call is
-- answered by the calls before it that change the registry, too: `Log`, the latest first.
use terraform_provider_confl.Base.{
  Bool, true, false, not, ◌&&◌, ◌||◌, Option, none, some, List, [], ◌∷◌, codes, ltb, length,
  if◌then◌else◌,
}
use terraform_provider_confl.Http.{status_not_found, response_has_expected_status_code}
use terraform_provider_confl.Http.Descriptive.{ApiError}
use terraform_provider_confl.Kafka.{Text}
use terraform_provider_confl.Kafka.Acl.{text_eq}
use terraform_provider_confl.Kafka.Settings.{Blocks, is_set}
use terraform_provider_confl.Oauth.Decimal.{itoa}
use terraform_provider_confl.Schema.Id.{
  create_schema_id, is_latest_schema, latest_schema_version_and_placeholder_for_schema_identifier,
}
use terraform_provider_confl.Schema.Request.{
  Rule, TfRuleset, RuleSet, TfMetadata, Metadata, get_or, build_tf_rules,
  build_tf_schema_references,
}
use terraform_provider_confl.Schema.Registry.{
  Log, SchemaApi, SchemaData, SchemaError, SchemaRegistryRestClient, SrSchema, api, no_schema,
}

unfoldable pub find_schema_by_id :
    List SrSchema → (schema_identifier subject_name : Text) → SrSchema × Bool
find_schema_by_id [] schema_identifier subject_name = (no_schema, false)
find_schema_by_id (s ∷ schemas) schema_identifier subject_name =
    if text_eq (itoa s.id) schema_identifier && text_eq s.subject subject_name
    then (s, true)
    else find_schema_by_id schemas schema_identifier subject_name

-- A schema with whether it is not there, or an error with whether that says so.
pub data LoadedSchema : Type 0 where
  loaded : SrSchema → (is_resource_not_found : Bool) → LoadedSchema
  not_loaded : ApiError → (is_resource_not_found : Bool) → LoadedSchema

pub data LatestId : Type 0 where
  latest_id : Text → LatestId
  no_latest_id : ApiError → (is_resource_not_found : Bool) → LatestId

abbrev pub found_or_not : SrSchema × Bool → LoadedSchema
found_or_not (s, exists_there) = loaded s (not exists_there)

module _ (world : SchemaApi) where
  unfoldable pub load_id_for_latest_schema : Log → SchemaRegistryRestClient → Text → LatestId
  unfolding response_has_expected_status_code
  load_id_for_latest_schema log c subject_name =
      let latest_schema =
        world.get_schema_by_version log c subject_name
          latest_schema_version_and_placeholder_for_schema_identifier in
      elim latest_schema.err [
        | some err ↦
            no_latest_id err (response_has_expected_status_code latest_schema.resp status_not_found)
        | none ↦ latest_id (itoa latest_schema.value.id)
      ]

  unfoldable pub load_schema_by_id :
      Log → SchemaRegistryRestClient → (subject_name schema_identifier : Text) → LoadedSchema
  unfolding find_schema_by_id
  load_schema_by_id log c subject_name schema_identifier =
      elim (world.get_schemas log c subject_name).err [
        | some err ↦ not_loaded err false
        | none ↦ found_or_not (
            find_schema_by_id (world.get_schemas log c subject_name).value schema_identifier
              subject_name)
      ]

  abbrev pub then_load :
      Log → SchemaRegistryRestClient → (subject_name : Text) → LatestId → LoadedSchema
  then_load log c subject_name (latest_id schema_identifier) =
      load_schema_by_id log c subject_name schema_identifier
  then_load log c subject_name (no_latest_id err is_resource_not_found) =
      not_loaded err is_resource_not_found

  unfoldable pub load_schema :
      Log → SchemaRegistryRestClient → (subject_name schema_identifier : Text) → LoadedSchema
  unfolding is_latest_schema load_id_for_latest_schema load_schema_by_id
  load_schema log c subject_name schema_identifier =
      if is_latest_schema schema_identifier
      then then_load log c subject_name (load_id_for_latest_schema log c subject_name)
      else load_schema_by_id log c subject_name schema_identifier

abbrev pub rules_in : Option (List Rule) → List Rule
rules_in = get_or []

-- The ruleset of a schema is set, if it has a rule.
abbrev pub set_ruleset : Option RuleSet → List (Option TfRuleset) → List (Option TfRuleset)
set_ruleset none old = old
set_ruleset (some r) old =
    if ltb 0 (length (rules_in r.domain_rules))
      || ltb 0 (length (rules_in r.migration_rules))
      || ltb 0 (length (rules_in r.encoding_rules))
    then some (
        build_tf_rules (rules_in r.domain_rules) (rules_in r.migration_rules)
          (rules_in r.encoding_rules))
      ∷ []
    else old

abbrev pub set_metadata : Option Metadata → List (Option TfMetadata) → List (Option TfMetadata)
set_metadata none metadata = metadata
set_metadata (some m) metadata =
    some (record {
      tags = some (get_or [] m.tags);
      properties = some (get_or [] m.properties);
      sensitive = some (get_or [] m.sensitive);
    })
    ∷ []

-- `setKafkaCredentials`, and the endpoint and the registry.
abbrev pub set_schema_blocks : SchemaRegistryRestClient → Blocks → Blocks
set_schema_blocks c blocks = if c.is_metadata_set_in_provider_block then blocks else record {
  cluster_id = c.cluster_id;
  rest_endpoint = c.rest_endpoint;
  api_key = if c.has_external_access_token then blocks.api_key else c.cluster_api_key;
  api_secret = if c.has_external_access_token then blocks.api_secret else c.cluster_api_secret;
}

abbrev pub set_schema_id : Text → SchemaData → SchemaData
set_schema_id id d = record d { id = id }

unfoldable pub set_schema_attributes :
    SchemaRegistryRestClient → (is_latest : Bool) → SrSchema → SchemaData → SchemaData
unfolding create_schema_id build_tf_rules build_tf_schema_references
set_schema_attributes c is_latest s d =
    let recreate_on_update = if d.recreate_on_update then true else not is_latest in
    record d {
      id = create_schema_id c.cluster_id s.subject s.id recreate_on_update;
      now = record {
        subject_name = s.subject;
        format = if is_set s.schema_type then s.schema_type else codes "AVRO";
        schema = s.schema;
        version = s.version;
        schema_identifier = s.id;
        schema_reference = build_tf_schema_references s.references;
        rule_set = set_ruleset s.rule_set d.now.rule_set;
        metadata = set_metadata s.metadata d.now.metadata;
      };
      recreate_on_update = recreate_on_update;
      blocks = set_schema_blocks c d.blocks;
    }

-- The error that a handler reports, the calls that it has made, and the data as it leaves it.
abbrev pub SchemaHandled : Type 0
SchemaHandled = Option SchemaError × Log × SchemaData

abbrev pub after_load_schema :
    SchemaRegistryRestClient
    → (is_latest : Bool) → LoadedSchema
    → SchemaData
    → Option SchemaError × SchemaData
after_load_schema c is_latest (loaded s is_resource_not_found) d =
    if is_resource_not_found && not d.is_new_resource
    then (none, set_schema_id [] d)
    else (none, set_schema_attributes c is_latest s d)
after_load_schema c is_latest (not_loaded err is_resource_not_found) d =
    if is_resource_not_found && not d.is_new_resource
    then (none, set_schema_id [] d)
    else (some (api err), d)

unfoldable pub read_schema_registry_config_and_set_attributes :
    SchemaApi
    → Log
    → SchemaRegistryRestClient
    → (subject_name schema_identifier : Text) → SchemaData
    → SchemaHandled
unfolding is_latest_schema load_schema set_schema_attributes
read_schema_registry_config_and_set_attributes world log c subject_name schema_identifier d =
    let result =
      after_load_schema c (is_latest_schema schema_identifier)
        (load_schema world log c subject_name schema_identifier) d in
    (result.0, log, result.1)
