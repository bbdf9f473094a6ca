-- ===== src/Statement/Gateway.antt =====
-- internal/provider/resource_flink_statement.go: a resource, the statements of the Flink gateway, and its
-- REST API. A call is answered by the calls before it that create, update or delete, too: `FlinkLog`, the
-- latest first.
use terraform_provider_confl.Base.{ℕ, Bool, Option, List, String}
use terraform_provider_confl.Http.Descriptive.{ApiError}
use terraform_provider_confl.Wait.{Call, Resource, Err}
use terraform_provider_confl.Statement.Settings.{FlinkBlocks}
use terraform_provider_confl.Statement.Properties.{FlinkProperties}

-- `flinkgatewayv1.SqlV1Statement`: its `Spec`, what of its `Status` is read, and its ids. Setting
-- a field of the specification sets the field and nothing else.
pub record FlinkStatement : Type 0 where
  pub name : String
  pub organization_id : String
  pub environment_id : String
  pub statement : String
  pub properties : FlinkProperties
  pub compute_pool_id : String
  pub principal : String
  pub stopped : Bool
  pub status : Resource
  pub latest_offsets : FlinkProperties
  pub latest_offsets_timestamp : String

-- `schema.ResourceData`
pub record FlinkData : Type 0 where
  pub id : String
  pub is_new_resource : Bool
  pub statement_name : String
  pub statement : String
  pub properties : FlinkProperties
  pub properties_sensitive : FlinkProperties
  pub old_stopped : Bool
  pub stopped : Bool
  pub latest_offsets : FlinkProperties
  pub latest_offsets_timestamp : String
  pub blocks : FlinkBlocks

-- `FlinkRestClient`
pub record FlinkRestClient : Type 0 where
  pub rest_endpoint : String
  pub organization_id : String
  pub environment_id : String
  pub compute_pool_id : String
  pub principal_id : String
  pub flink_api_key : String
  pub flink_api_secret : String
  pub is_metadata_set_in_provider_block : Bool
  pub has_external_access_token : Bool

-- The request that creates a statement.
pub record FlinkRequest : Type 0 where
  pub name : String
  pub statement : String
  pub properties : FlinkProperties
  pub compute_pool_id : String
  pub principal : String

pub data FlinkCall : Type 0 where
  created : FlinkRequest → FlinkCall
  updated : (statement_name : String) → FlinkStatement → FlinkCall
  deleted : (statement_name : String) → FlinkCall

abbrev pub FlinkLog : Type 0
FlinkLog = List FlinkCall

-- `poll` is a read by a wait, with its number.
pub record FlinkApi : Type 0 where
  pub create : FlinkLog → FlinkRestClient → FlinkRequest → Call FlinkStatement
  pub get : FlinkLog → FlinkRestClient → (statement_name : String) → Call FlinkStatement
  pub poll : FlinkLog → FlinkRestClient → ℕ → (statement_name : String) → Call Resource
  pub update :
      FlinkLog → FlinkRestClient → (statement_name : String) → FlinkStatement → Call FlinkStatement
  pub delete : FlinkLog → FlinkRestClient → (statement_name : String) → Call (Unit {0})

pub data FlinkError : Type 0 where
  api : ApiError → FlinkError
  wait : Err → FlinkError
  setting_missing invalid_id : FlinkError
  only_some_can_be_updated only_stopped_can_be_updated only_resume_can_be_updated : FlinkError

-- The error that a handler reports, the calls that it has made, and the data as it leaves it.
abbrev pub FlinkHandled : Type 0
FlinkHandled = Option FlinkError × FlinkLog × FlinkData
