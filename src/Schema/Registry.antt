-- ===== src/Schema/Registry.antt =====
-- internal/provider/resource_schema.go: a resource, the schemas of a registry, and its REST API. An API
-- call is answered by the calls before it that change the registry, too: `Log`, the latest first.
use terraform_provider_confl.Base.{ℕ, Bool, Option, none, List, []}
use terraform_provider_confl.Http.Descriptive.{ApiError}
use terraform_provider_confl.Wait.{Call}
use terraform_provider_confl.Kafka.{Text}
use terraform_provider_confl.Kafka.Settings.{Blocks}
use terraform_provider_confl.Schema.Request.{
  TfRuleset, RuleSet, TfReference, SchemaReference, TfMetadata, Metadata, RegisterSchemaRequest,
}

-- The attributes that describe a schema.
pub record Attributes : Type 0 where
  pub subject_name : Text
  pub format : Text
  pub schema : Text
  pub version : ℕ
  pub schema_identifier : ℕ
  pub schema_reference : List TfReference
  pub rule_set : List (Option TfRuleset)
  pub metadata : List (Option TfMetadata)

-- `schema.ResourceData`: the attributes before the change and as they are now. A Boolean that is unset
-- reads as false.
pub record SchemaData : Type 0 where
  pub id : Text
  pub is_new_resource : Bool
  pub old : Attributes
  pub now : Attributes
  pub hard_delete : Bool
  pub recreate_on_update : Bool
  pub skip_validation_during_plan : Bool
  pub blocks : Blocks

-- `schemaregistryv1.Schema`
pub record SrSchema : Type 0 where
  pub subject : Text
  pub schema_type : Text
  pub schema : Text
  pub version : ℕ
  pub id : ℕ
  pub references : List SchemaReference
  pub rule_set : Option RuleSet
  pub metadata : Option Metadata

-- `schemaregistryv1.Schema{}`
abbrev pub no_schema : SrSchema
no_schema = record {
  subject = [];
  schema_type = [];
  schema = [];
  version = 0;
  id = 0;
  references = [];
  rule_set = none;
  metadata = none;
}

-- `SchemaRegistryRestClient`
pub record SchemaRegistryRestClient : Type 0 where
  pub rest_endpoint : Text
  pub cluster_id : Text
  pub cluster_api_key : Text
  pub cluster_api_secret : Text
  pub is_metadata_set_in_provider_block : Bool
  pub has_external_access_token : Bool

pub record CompatibilityCheckResponse : Type 0 where
  pub is_compatible : Bool
  pub messages : List Text

-- A call that validates, registers or deletes.
pub data SchemaCall : Type 0 where
  tested registered : RegisterSchemaRequest → (subject_name : Text) → SchemaCall
  deleted : (subject_name schema_version : Text) → (permanent : Bool) → SchemaCall

abbrev pub Log : Type 0
Log = List SchemaCall

pub record SchemaApi : Type 0 where
  pub test_compatibility_for_subject :
      Log
      → SchemaRegistryRestClient
      → RegisterSchemaRequest
      → Text
      → Call CompatibilityCheckResponse
  pub look_up_schema_under_subject :
      Log
      → SchemaRegistryRestClient
      → RegisterSchemaRequest
      → Text
      → (normalize : Bool) → Call SrSchema
  pub register : Log → SchemaRegistryRestClient → RegisterSchemaRequest → Text → Call ℕ
  pub get_schema_by_version : Log → SchemaRegistryRestClient → Text → Text → Call SrSchema
  pub get_schemas : Log → SchemaRegistryRestClient → (subject_prefix : Text) → Call (List SrSchema)
  pub delete_schema_version :
      Log → SchemaRegistryRestClient → Text → Text → (permanent : Bool) → Call (Unit {0})

pub data SchemaError : Type 0 where
  api : ApiError → SchemaError
  setting_missing invalid_format only_some_can_be_updated recreate_on_update_is_set : SchemaError
  not_compatible : (messages : List Text) → SchemaError
