-- ===== src/Kafka/AclHandlers.antt =====
-- internal/provider/resource_kafka_acl.go: the handlers of the resource. A handler takes and returns
-- the resource's data; setting an attribute to a text does not fail, and is no error here.
use terraform_provider_confl.Base.{
  Bool, true, false, not, ◌&&◌, Option, none, some, List, [], ◌∷◌, if◌then◌else◌,
}
use terraform_provider_confl.Http.{status_not_found, response_has_expected_status_code}
use terraform_provider_confl.Http.Descriptive.{ApiError}
use terraform_provider_confl.Wait.{Call}
use terraform_provider_confl.Kafka.{Text}
use terraform_provider_confl.Kafka.Settings.{
  Provider, Blocks, Setting, given, missing, Environment, extract_kafka_cluster_id,
  extract_rest_endpoint, extract_cluster_api_key_and_api_secret,
}
use terraform_provider_confl.Kafka.Acl.{
  AclResourceType, Acl, AclError, Read, ok, error, string_to_acl_resource_type, with_type,
  create_kafka_acl_id, read_id,
}

-- `schema.ResourceData`
pub record Data : Type 0 where
  pub id : Text
  pub is_new_resource : Bool
  pub resource_type : Text
  pub resource_name : Text
  pub pattern_type : Text
  pub principal : Text
  pub host : Text
  pub operation : Text
  pub permission : Text
  pub blocks : Blocks

-- `KafkaRestClient`
pub record KafkaRestClient : Type 0 where
  pub rest_endpoint : Text
  pub cluster_id : Text
  pub cluster_api_key : Text
  pub cluster_api_secret : Text
  pub is_cluster_id_set_in_provider_block : Bool
  pub is_metadata_set_in_provider_block : Bool

-- The ACL calls of the Kafka REST API.
pub record AclApi : Type 0 where
  pub type_text : AclResourceType → Text
  pub create : KafkaRestClient → Acl → Call (Unit {0})
  pub read : KafkaRestClient → Acl → Call (List Acl)
  pub delete : KafkaRestClient → Acl → Call (Unit {0})

pub data HandlerError : Type 0 where
  api : ApiError → HandlerError
  setting_missing no_acls_matched multiple_acls_matched only_credentials_can_be_updated :
      HandlerError
  acl_error : AclError → HandlerError

-- The error that a handler reports, and the data as it leaves it.
abbrev pub Handled : Type 0
Handled = Option HandlerError × Data

unfoldable pub extract_acl : Data → Read Acl
unfolding string_to_acl_resource_type
extract_acl d =
    with_type d.resource_name d.pattern_type d.principal d.host d.operation d.permission
      (string_to_acl_resource_type d.resource_type)

unfoldable pub set_id : Text → Data → Data
set_id id d = record {
  id = id;
  is_new_resource = d.is_new_resource;
  resource_type = d.resource_type;
  resource_name = d.resource_name;
  pattern_type = d.pattern_type;
  principal = d.principal;
  host = d.host;
  operation = d.operation;
  permission = d.permission;
  blocks = d.blocks;
}

-- The blocks after a read: what the provider block sets is not copied into the resource.
unfoldable pub set_blocks : Provider → KafkaRestClient → Blocks → Blocks
set_blocks client c blocks = record {
  cluster_id =
      if not c.is_cluster_id_set_in_provider_block then c.cluster_id else blocks.cluster_id;
  rest_endpoint =
      if not c.is_metadata_set_in_provider_block then c.rest_endpoint else blocks.rest_endpoint;
  api_key =
      if not c.is_metadata_set_in_provider_block && not client.is_oauth_enabled
      then c.cluster_api_key
      else blocks.api_key;
  api_secret =
      if not c.is_metadata_set_in_provider_block && not client.is_oauth_enabled
      then c.cluster_api_secret
      else blocks.api_secret;
}

module _ (world : AclApi) (env : Environment) (client : Provider) where
  unfoldable pub set_attributes : KafkaRestClient → Acl → Acl → Data → Data
  unfolding set_blocks create_kafka_acl_id
  set_attributes c acl matched_acl d = record {
    id = create_kafka_acl_id world.type_text c.cluster_id acl;
    is_new_resource = d.is_new_resource;
    resource_type = world.type_text matched_acl.resource_type;
    resource_name = matched_acl.resource_name;
    pattern_type = matched_acl.pattern_type;
    principal = acl.principal;
    host = matched_acl.host;
    operation = matched_acl.operation;
    permission = matched_acl.permission;
    blocks = set_blocks client c d.blocks;
  }

  unfoldable pub matched : KafkaRestClient → Acl → Data → List Acl → Handled
  unfolding set_attributes set_id
  matched c acl d [] =
      if not d.is_new_resource then (none, set_id [] d) else (some no_acls_matched, d)
  matched c acl d (matched_acl ∷ []) = (none, set_attributes c acl matched_acl d)
  matched c acl d (_ ∷ _ ∷ _) = (some multiple_acls_matched, d)

  unfoldable pub read_acl_and_set_attributes : KafkaRestClient → Acl → Data → Handled
  unfolding matched set_id response_has_expected_status_code
  read_acl_and_set_attributes c acl d =
      let remote_acls = world.read c acl in
      elim remote_acls.err [
        | some err ↦
            if response_has_expected_status_code remote_acls.resp status_not_found
              && not d.is_new_resource
            then (none, set_id [] d)
            else (some (api err), d)
        | none ↦ matched c acl d remote_acls.value
      ]

  abbrev pub rest_client : Text → Text → Text × Text → KafkaRestClient
  rest_client rest_endpoint cluster_id credentials = record {
    rest_endpoint = rest_endpoint;
    cluster_id = cluster_id;
    cluster_api_key = credentials.0;
    cluster_api_secret = credentials.1;
    is_cluster_id_set_in_provider_block = client.is_kafka_cluster_id_set;
    is_metadata_set_in_provider_block = client.is_kafka_metadata_set;
  }

  abbrev pub need {ℓ} : {A : Type ℓ} → Data → Setting A → (A → Handled) → Handled
  need d (given a) next = next a
  need d missing next = (some setting_missing, d)

  abbrev pub need_acl : Data → Read Acl → (Acl → Handled) → Handled
  need_acl d (ok acl) next = next acl
  need_acl d (error e) next = (some (acl_error e), d)

  unfoldable pub kafka_acl_read : Data → Handled
  unfolding extract_rest_endpoint extract_kafka_cluster_id extract_cluster_api_key_and_api_secret
      extract_acl read_acl_and_set_attributes
  kafka_acl_read d = need d (extract_rest_endpoint env client d.blocks false) (λ rest_endpoint.
      need d (extract_kafka_cluster_id env client d.blocks false) (λ cluster_id.
        need d (extract_cluster_api_key_and_api_secret env client d.blocks false) (λ credentials.
          need_acl d (extract_acl d) (λ acl.
            read_acl_and_set_attributes (rest_client rest_endpoint cluster_id credentials) acl d))))

  unfoldable pub kafka_acl_create : Data → Handled
  unfolding extract_rest_endpoint extract_kafka_cluster_id extract_cluster_api_key_and_api_secret
      extract_acl kafka_acl_read set_id create_kafka_acl_id
  kafka_acl_create d = need d (extract_rest_endpoint env client d.blocks false) (λ rest_endpoint.
      need d (extract_kafka_cluster_id env client d.blocks false) (λ cluster_id.
        need d (extract_cluster_api_key_and_api_secret env client d.blocks false) (λ credentials.
          need_acl d (extract_acl d) (λ acl.
            elim (world.create (rest_client rest_endpoint cluster_id credentials) acl).err [
              | some err ↦ (some (api err), d)
              | none ↦
                  kafka_acl_read (set_id (create_kafka_acl_id world.type_text cluster_id acl) d)
            ]))))

  -- The error of the credentials is overwritten: without them they are empty.
  abbrev credentials_or_empty : Setting (Text × Text) → Text × Text
  credentials_or_empty (given credentials) = credentials
  credentials_or_empty missing = ([], [])

  unfoldable pub kafka_acl_delete : Data → Handled
  unfolding extract_rest_endpoint extract_kafka_cluster_id extract_cluster_api_key_and_api_secret
      extract_acl
  kafka_acl_delete d = need d (extract_rest_endpoint env client d.blocks false) (λ rest_endpoint.
      need d (extract_kafka_cluster_id env client d.blocks false) (λ cluster_id.
        need_acl d (extract_acl d) (λ acl.
          elim (world.delete
            (rest_client rest_endpoint cluster_id (
              credentials_or_empty
                (extract_cluster_api_key_and_api_secret env client d.blocks false)))
            acl).err [ some err ↦ (some (api err), d) | none ↦ (none, d) ])))

  -- `has_changes` is `d.HasChangesExcept(paramCredentials)`.
  unfoldable pub kafka_acl_update : (has_changes : Bool) → Data → Handled
  unfolding kafka_acl_read
  kafka_acl_update has_changes d =
      if has_changes then (some only_credentials_can_be_updated, d) else kafka_acl_read d

  unfoldable pub mark_new_resource : Data → Data
  mark_new_resource d = record {
    id = d.id;
    is_new_resource = true;
    resource_type = d.resource_type;
    resource_name = d.resource_name;
    pattern_type = d.pattern_type;
    principal = d.principal;
    host = d.host;
    operation = d.operation;
    permission = d.permission;
    blocks = d.blocks;
  }

  abbrev pub need_id : Data → Read (Text × Acl) → (Text × Acl → Handled) → Handled
  need_id d (ok p) next = next p
  need_id d (error e) next = (some (acl_error e), d)

  unfoldable pub kafka_acl_import : Data → Handled
  unfolding extract_rest_endpoint extract_cluster_api_key_and_api_secret read_id mark_new_resource
      read_acl_and_set_attributes
  kafka_acl_import d = need d (extract_rest_endpoint env client d.blocks true) (λ rest_endpoint.
      need d (extract_cluster_api_key_and_api_secret env client d.blocks true) (λ credentials.
        need_id d (read_id d.id) (λ named.
          read_acl_and_set_attributes (rest_client rest_endpoint named.0 credentials) named.1
            (mark_new_resource d))))
