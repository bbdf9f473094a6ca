-- ===== src/Kafka/Acl.antt =====
-- internal/provider/resource_kafka_acl.go: an ACL, its identifier, and how that is read again.
use terraform_provider_confl.Base.{
  ℕ, List, [], ◌∷◌, ◌++◌, codes, if◌then◌else◌, Bool, true, false, ◌&&◌, ◌==◌,
}
use terraform_provider_confl.Kafka.{Text}
use terraform_provider_confl.Kafka.Separated.{join, split}

-- The type of the Kafka REST API's client; `named` has its values.
pub data AclResourceType : Type 0 where
  unknown any topic group cluster transactional_id delegation_token : AclResourceType

abbrev pub named : AclResourceType → Text
named unknown = codes "UNKNOWN"
named any = codes "ANY"
named topic = codes "TOPIC"
named group = codes "GROUP"
named cluster = codes "CLUSTER"
named transactional_id = codes "TRANSACTIONAL_ID"
named delegation_token = codes "DELEGATION_TOKEN"

abbrev pub text_eq : Text → Text → Bool
text_eq [] [] = true
text_eq (b ∷ s) (c ∷ t) = b == c && text_eq s t
text_eq _ _ = false

pub record Acl : Type 0 where
  pub resource_type : AclResourceType
  pub resource_name : Text
  pub pattern_type : Text
  pub principal : Text
  pub host : Text
  pub operation : Text
  pub permission : Text

pub data AclError : Type 0 where
  unknown_acl_resource_type : Text → AclError
  invalid_format : AclError

pub data Read {ℓ} (A : Type ℓ) : Type ℓ where
  ok : A → Read A
  error : AclError → Read A

unfoldable pub string_to_acl_resource_type : Text → Read AclResourceType
string_to_acl_resource_type acl_resource_type =
    if text_eq acl_resource_type (codes "UNKNOWN")
    then ok unknown
    else if text_eq acl_resource_type (codes "ANY")
    then ok any
    else if text_eq acl_resource_type (codes "TOPIC")
    then ok topic
    else if text_eq acl_resource_type (codes "GROUP")
    then ok group
    else if text_eq acl_resource_type (codes "CLUSTER")
    then ok cluster
    else if text_eq acl_resource_type (codes "TRANSACTIONAL_ID")
    then ok transactional_id
    else if text_eq acl_resource_type (codes "DELEGATION_TOKEN")
    then ok delegation_token
    else error (unknown_acl_resource_type acl_resource_type)

abbrev pub hash : ℕ
hash = 35

abbrev pub slash : ℕ
slash = 47

-- `string(acl.ResourceType)` is what the API's client defines, a parameter.
module _ (type_text : AclResourceType → Text) where
  unfoldable pub serialize_acl : Acl → Text
  unfolding join
  serialize_acl acl = join hash (
      type_text acl.resource_type
      ∷ acl.resource_name
      ∷ acl.pattern_type
      ∷ acl.principal
      ∷ acl.host
      ∷ acl.operation
      ∷ acl.permission
      ∷ [])

  unfoldable pub create_kafka_acl_id : Text → Acl → Text
  unfolding serialize_acl
  create_kafka_acl_id cluster_id acl = cluster_id ++ slash ∷ serialize_acl acl

abbrev pub with_type :
    (name pattern_type principal host operation permission : Text) → Read AclResourceType → Read Acl
with_type name pattern_type principal host operation permission (ok resource_type) = ok record {
  resource_type = resource_type;
  resource_name = name;
  pattern_type = pattern_type;
  principal = principal;
  host = host;
  operation = operation;
  permission = permission;
}
with_type name pattern_type principal host operation permission (error e) = error e

-- Exactly seven parts.
unfoldable pub acl_of_parts : List Text → Read Acl
unfolding string_to_acl_resource_type
acl_of_parts (t ∷ name ∷ pattern_type ∷ principal ∷ host ∷ operation ∷ permission ∷ []) =
    with_type name pattern_type principal host operation permission (string_to_acl_resource_type t)
acl_of_parts _ = error invalid_format

unfoldable pub deserialize_acl : Text → Read Acl
unfolding split acl_of_parts
deserialize_acl serialized_acl = acl_of_parts (split hash serialized_acl)

-- What the import reads from the identifier: the cluster and the ACL.
abbrev pub with_cluster : Text → Read Acl → Read (Text × Acl)
with_cluster cluster_id (ok acl) = ok (cluster_id, acl)
with_cluster cluster_id (error e) = error e

unfoldable pub read_id_parts : List Text → Read (Text × Acl)
unfolding deserialize_acl
read_id_parts (cluster_id ∷ serialized_acl ∷ []) =
    with_cluster cluster_id (deserialize_acl serialized_acl)
read_id_parts _ = error invalid_format

unfoldable pub read_id : Text → Read (Text × Acl)
unfolding split read_id_parts
read_id id = read_id_parts (split slash id)
