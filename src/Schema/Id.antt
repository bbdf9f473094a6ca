-- ===== src/Schema/Id.antt =====
-- internal/provider/resource_schema.go: the identifier of a resource, and how it is read again.
use terraform_provider_confl.Base.{
  ℕ, Bool, Option, none, some, List, [], ◌∷◌, ◌++◌, codes, if◌then◌else◌,
}
use terraform_provider_confl.Kafka.{Text}
use terraform_provider_confl.Kafka.Separated.{join, split}
use terraform_provider_confl.Kafka.Acl.{text_eq}
use terraform_provider_confl.Oauth.Decimal.{itoa}

-- `/`
abbrev pub slash : ℕ
slash = 47

abbrev pub latest_schema_version_and_placeholder_for_schema_identifier : Text
latest_schema_version_and_placeholder_for_schema_identifier = codes "latest"

unfoldable pub is_latest_schema : Text → Bool
is_latest_schema schema_identifier =
    text_eq schema_identifier latest_schema_version_and_placeholder_for_schema_identifier

-- `fmt.Sprintf("%s/%s/%s", ...)`
abbrev pub three_parts : Text → Text → Text → Text
three_parts cluster_id subject_name last = cluster_id ++ slash ∷ (subject_name ++ slash ∷ last)

-- The last part of an identifier. A schema's number is not negative.
abbrev pub last_part : ℕ → (should_recreate_on_update : Bool) → Text
last_part identifier should_recreate_on_update =
    if should_recreate_on_update
    then itoa identifier
    else latest_schema_version_and_placeholder_for_schema_identifier

unfoldable pub create_schema_id :
    Text → Text → (identifier : ℕ) → (should_recreate_on_update : Bool) → Text
create_schema_id cluster_id subject_name identifier should_recreate_on_update =
    three_parts cluster_id subject_name (last_part identifier should_recreate_on_update)

-- The last of the parts behind the first, and those between them.
abbrev pub before_last : List Text → List Text
before_last [] = []
before_last (s ∷ []) = []
before_last (s ∷ t ∷ ts) = s ∷ before_last (t ∷ ts)

abbrev pub last_of : List Text → Text
last_of [] = []
last_of (s ∷ []) = s
last_of (s ∷ t ∷ ts) = last_of (t ∷ ts)

abbrev pub parts_of : List Text → Option (Text × Text × Text)
parts_of (cluster_id ∷ s ∷ t ∷ ts) =
    some (cluster_id, join slash (before_last (s ∷ t ∷ ts)), last_of (s ∷ t ∷ ts))
parts_of _ = none

-- The cluster, the name and the identifier; none is the error of the format.
unfoldable pub extract_subject_info_from_tf_id : Text → Option (Text × Text × Text)
unfolding join split
extract_subject_info_from_tf_id terraform_id = parts_of (split slash terraform_id)

abbrev third : Option (Text × Text × Text) → Option Text
third none = none
third (some (cluster_id, name, identifier)) = some identifier

abbrev second : Option (Text × Text × Text) → Option Text
second none = none
second (some (cluster_id, name, identifier)) = some name

unfoldable pub extract_schema_identifier_from_tf_id : Text → Option Text
unfolding extract_subject_info_from_tf_id
extract_schema_identifier_from_tf_id terraform_id =
    third (extract_subject_info_from_tf_id terraform_id)

unfoldable pub extract_subject_name_from_tf_id : Text → Option Text
unfolding extract_subject_info_from_tf_id
extract_subject_name_from_tf_id terraform_id = second (extract_subject_info_from_tf_id terraform_id)
