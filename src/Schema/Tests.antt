-- ===== src/Schema/Tests.antt =====
-- The theorems on schemas, at concrete ones.
use terraform_provider_confl.Base.{◌≡◌, ◌⊎◌, refl, true, false, none, some, [], ◌∷◌, codes}
use terraform_provider_confl.Wait.{Call}
use terraform_provider_confl.Kafka.{Text}
use terraform_provider_confl.Kafka.Separated.{split, prepend, join}
use terraform_provider_confl.Kafka.Settings.{is_set, given, Blocks, Environment}
use terraform_provider_confl.Oauth.Decimal.{itoa}
use terraform_provider_confl.Schema.Id.{
  create_schema_id, is_latest_schema, extract_subject_info_from_tf_id,
  extract_schema_identifier_from_tf_id, extract_subject_name_from_tf_id,
}
use terraform_provider_confl.Schema.Settings.{
  SchemaProvider, extract_schema_registry_rest_endpoint,
  extract_schema_registry_cluster_api_key_and_api_secret, extract_schema_registry_cluster_id,
}
use terraform_provider_confl.Schema.Registry.{
  no_schema, Attributes, SchemaData, SrSchema, SchemaApi,
}
use terraform_provider_confl.Schema.Loads.{
  find_schema_by_id, load_schema, load_schema_by_id, set_schema_attributes,
  read_schema_registry_config_and_set_attributes,
}
use terraform_provider_confl.Schema.Handlers.{
  with_rest_client, schema_read, schema_create, schema_delete, schema_import,
}
use terraform_provider_confl.Schema.Plan.{
  with_new_rule_set, has_schema_change, set_old_schema_value, schema_lookup_by_normalize,
  schema_lookup, try_schema_lookup, schema_lookup_check, schema_validate_check, checked_schema_diff,
  validated_schema_diff, planned_rest_client, can_be_checked, planned_schema_request,
  set_schema_diff,
}
use terraform_provider_confl.Schema.IdTrip
use terraform_provider_confl.Schema.Found
use terraform_provider_confl.Schema.Passed
use terraform_provider_confl.Schema.Kept
use terraform_provider_confl.Schema.Ordered
use terraform_provider_confl.Schema.Checked
use terraform_provider_confl.Schema.Imported

abbrev lsrc : Text
lsrc = codes "lsrc-1"

-- A subject's name may have a slash.
abbrev slash_name : Text
slash_name = codes "a/b"

-- The identifier of number 7 is read again.
identifier_example :
    extract_subject_info_from_tf_id (create_schema_id lsrc slash_name 7 true)
    ≡ some (lsrc, slash_name, itoa 7)
identifier_example =
    IdTrip.extract_subject_info_from_tf_id-create_schema_id lsrc slash_name 7 true refl

abbrev number_seven : SrSchema
number_seven = record {
  subject = slash_name;
  schema_type = [];
  schema = codes "int";
  version = 2;
  id = 7;
  references = [];
  rule_set = none;
  metadata = none;
}

abbrev answered : {A : Type 0} → A → Call A
answered a = record { value = a; resp = none; err = none }

abbrev registry : SchemaApi
registry = record {
  test_compatibility_for_subject =
      λ log. λ c. λ q. λ n. answered (record { is_compatible = true; messages = [] });
  look_up_schema_under_subject = λ log. λ c. λ q. λ n. λ normalize. answered number_seven;
  register = λ log. λ c. λ q. λ n. answered 7;
  get_schema_by_version = λ log. λ c. λ n. λ v. answered number_seven;
  get_schemas = λ log. λ c. λ n. answered (number_seven ∷ []);
  delete_schema_version = λ log. λ c. λ n. λ v. λ permanent. answered tt;
}

abbrev empty_environment : Environment
empty_environment name = []

abbrev in_provider : SchemaProvider
in_provider = record {
  is_schema_registry_metadata_set = true;
  schema_registry_rest_endpoint = codes "https://sr";
  schema_registry_cluster_id = lsrc;
  schema_registry_api_key = codes "key";
  schema_registry_api_secret = codes "secret";
  is_oauth_enabled = false;
}

abbrev no_blocks : Blocks
no_blocks = record { cluster_id = []; rest_endpoint = []; api_key = []; api_secret = [] }

abbrev attributes_with : Text → Attributes
attributes_with content = record {
  subject_name = slash_name;
  format = codes "AVRO";
  schema = content;
  version = 2;
  schema_identifier = 7;
  schema_reference = [];
  rule_set = [];
  metadata = [];
}

-- Number 7 with a space more.
abbrev spaced : SchemaData
spaced = record {
  id = create_schema_id lsrc slash_name 7 true;
  is_new_resource = false;
  old = attributes_with (codes "int");
  now = attributes_with (codes "int ");
  hard_delete = true;
  recreate_on_update = true;
  skip_validation_during_plan = false;
  blocks = no_blocks;
}

-- The read of it, which leaves its identifier as it was.
abbrev after_read : SchemaData
after_read = (schema_read registry empty_environment in_provider false [] spaced).2

read_done :
    schema_read registry empty_environment in_provider false [] spaced ≡ Found.ended [] after_read
unfolding schema_read with_rest_client extract_schema_registry_rest_endpoint
    extract_schema_registry_cluster_id extract_schema_registry_cluster_api_key_and_api_secret
    extract_schema_identifier_from_tf_id extract_subject_name_from_tf_id
    extract_subject_info_from_tf_id create_schema_id split prepend join itoa is_latest_schema
    read_schema_registry_config_and_set_attributes load_schema load_schema_by_id find_schema_by_id
    set_schema_attributes
read_done = refl

in_provider_cluster :
    extract_schema_registry_cluster_id empty_environment in_provider no_blocks false ≡ given lsrc
unfolding extract_schema_registry_cluster_id
in_provider_cluster = refl

reads_again_example :
    (after_read.id ≡ [])
    ⊎ ((after_read.id ≡ create_schema_id lsrc slash_name 7 true)
        × (after_read.recreate_on_update ≡ true))
reads_again_example =
    Kept.schema_read-kept registry empty_environment in_provider false lsrc slash_name 7 [] []
      spaced after_read in_provider_cluster refl refl refl read_done

creates_example :
    Ordered.Created registry empty_environment in_provider false [] spaced
      (schema_create registry empty_environment in_provider false [] spaced)
creates_example =
    Ordered.schema_create-Created registry empty_environment in_provider false [] spaced

deletes_example :
    Ordered.Deleted registry empty_environment in_provider false [] spaced
      (schema_delete registry empty_environment in_provider false [] spaced)
deletes_example =
    Ordered.schema_delete-Deleted registry empty_environment in_provider false [] spaced

spaced_changed : has_schema_change spaced ≡ true
unfolding has_schema_change
spaced_changed = refl

spaced_checkable : can_be_checked in_provider (planned_rest_client in_provider false spaced) ≡ true
unfolding can_be_checked planned_rest_client
spaced_checkable = refl

spaced_passes :
    set_schema_diff registry in_provider false [] spaced
    ≡ Passed.accepted (set_old_schema_value spaced)
unfolding set_schema_diff has_schema_change planned_rest_client can_be_checked
    planned_schema_request validated_schema_diff schema_validate_check checked_schema_diff
    schema_lookup_check try_schema_lookup schema_lookup schema_lookup_by_normalize
    set_old_schema_value create_schema_id
spaced_passes = refl

validates_example :
    ((registry.test_compatibility_for_subject []
        (planned_rest_client in_provider false spaced)
        (planned_schema_request spaced)
        slash_name).err
      ≡ none)
    × ((registry.test_compatibility_for_subject []
          (planned_rest_client in_provider false spaced)
          (planned_schema_request spaced)
          slash_name).value.is_compatible
        ≡ true)
validates_example =
    Checked.set_schema_diff_validated registry in_provider false [] spaced
      (set_old_schema_value spaced) spaced_changed spaced_checkable refl spaced_passes

spaced_known : is_set spaced.id ≡ true
unfolding create_schema_id
spaced_known = refl

keeps_old_example :
    (set_old_schema_value spaced ≡ set_old_schema_value spaced)
    × (Checked.HasOwn registry in_provider false []
          (planned_rest_client in_provider false spaced)
          spaced
          (planned_schema_request spaced)
        ⊎ (((planned_schema_request spaced).rule_set ≡ none)
            × Checked.HasOwn registry in_provider false []
                (planned_rest_client in_provider false spaced)
                spaced
                (with_new_rule_set (planned_schema_request spaced))))
keeps_old_example =
    Checked.set_schema_diff_own registry in_provider false [] spaced (set_old_schema_value spaced)
      spaced_changed spaced_checkable spaced_known refl spaced_passes

-- The registry has no number 8.
abbrev number_eight : SchemaData
number_eight = record spaced { id = codes "lsrc-1/a/b/8" }

eight_endpoint :
    extract_schema_registry_rest_endpoint empty_environment in_provider no_blocks true
    ≡ given (codes "https://sr")
unfolding extract_schema_registry_rest_endpoint
eight_endpoint = refl

eight_credentials :
    extract_schema_registry_cluster_api_key_and_api_secret empty_environment in_provider no_blocks
      true
    ≡ given (codes "key", codes "secret")
unfolding extract_schema_registry_cluster_api_key_and_api_secret
eight_credentials = refl

eight_parts : extract_subject_info_from_tf_id number_eight.id ≡ some (lsrc, slash_name, codes "8")
unfolding extract_subject_info_from_tf_id split prepend join
eight_parts = refl

eight_number : is_latest_schema (codes "8") ≡ false
unfolding is_latest_schema
eight_number = refl

eight_absent : find_schema_by_id (number_seven ∷ []) (codes "8") slash_name ≡ (no_schema, false)
unfolding find_schema_by_id itoa
eight_absent = refl

imports_example :
    ((schema_import registry empty_environment in_provider false [] number_eight).0 ≡ none)
    × ((schema_import registry empty_environment in_provider false [] number_eight).2.now.schema
        ≡ [])
    × ((schema_import registry empty_environment in_provider false []
          number_eight).2.now.subject_name
        ≡ [])
    × ((schema_import registry empty_environment in_provider false [] number_eight).2.id
        ≡ create_schema_id lsrc [] 0 true)
imports_example =
    Imported.schema_import_unnoticed registry empty_environment in_provider false [] number_eight
      (codes "https://sr") lsrc slash_name (codes "8") (codes "key", codes "secret") eight_endpoint
      eight_credentials eight_parts eight_number refl eight_absent
