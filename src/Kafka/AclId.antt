-- ===== src/Kafka/AclId.antt =====
-- The identifier of an ACL, and the import that reads it.
use terraform_provider_confl.Base.{
  ℕ, ◌+◌, ◌<◌, ◌≡◌, refl, ap, ◌∙◌, List, [], ◌∷◌, length, All, arith,
}
use terraform_provider_confl.Kafka.{Text}
use terraform_provider_confl.Kafka.Separated.{
  split, Lacks, split-join, count, count-++, length-split, counts, count-join, count-join_other,
  split-part, split-last,
}
use terraform_provider_confl.Kafka.Acl.{
  AclResourceType, unknown, named, Acl, invalid_format, ok, error, string_to_acl_resource_type,
  hash, slash, serialize_acl, create_kafka_acl_id, acl_of_parts, with_type, deserialize_acl,
  read_id_parts, read_id, with_cluster,
}

string_to_acl_resource_type-named :
    (t : AclResourceType) → string_to_acl_resource_type (named t) ≡ ok t
unfolding string_to_acl_resource_type
string_to_acl_resource_type-named unknown = refl
string_to_acl_resource_type-named _ = refl

named-Lacks-hash : (t : AclResourceType) → Lacks hash (named t)
named-Lacks-hash unknown = refl
named-Lacks-hash _ = refl

named-Lacks-slash : (t : AclResourceType) → Lacks slash (named t)
named-Lacks-slash unknown = refl
named-Lacks-slash _ = refl

counts_zero : (c : ℕ) (ts : List Text) → All (Lacks c) ts → counts c ts ≡ 0
counts_zero c [] h = refl
counts_zero c (s ∷ ts) (h, others) = let rest = counts_zero c ts others in omega arith

-- Only seven parts make an ACL.
acl_of_parts-other : (ts : List Text) → 7 < length ts → acl_of_parts ts ≡ error invalid_format
unfolding acl_of_parts
acl_of_parts-other (_ ∷ _ ∷ _ ∷ _ ∷ _ ∷ _ ∷ _ ∷ _ ∷ _) h = refl
acl_of_parts-other _ h = absurd (omega arith)

read_id_parts-other : (ts : List Text) → 2 < length ts → read_id_parts ts ≡ error invalid_format
unfolding read_id_parts
read_id_parts-other (_ ∷ _ ∷ _ ∷ _) h = refl
read_id_parts-other _ h = absurd (omega arith)

module _ (type_text : AclResourceType → Text)
    (constants : (t : AclResourceType) → type_text t ≡ named t) where
  abbrev pub fields : Acl → List Text
  fields acl =
      acl.resource_name ∷ acl.pattern_type ∷ acl.principal ∷ acl.host ∷ acl.operation
      ∷ acl.permission ∷ []

  pub type_text-Lacks-hash : (t : AclResourceType) → Lacks hash (type_text t)
  type_text-Lacks-hash t = ap (count hash) (constants t) ∙ named-Lacks-hash t

  -- If no field of an ACL has a `#`, then the ACL is read again from its text.
  pub deserialize-serialize :
      (acl : Acl)
      → All (Lacks hash) (fields acl)
      → deserialize_acl (serialize_acl type_text acl) ≡ ok acl
  unfolding deserialize_acl serialize_acl acl_of_parts
  deserialize-serialize acl h =
      ap acl_of_parts (
        split-join hash (type_text acl.resource_type) (fields acl)
          (type_text-Lacks-hash acl.resource_type, h))
      ∙ ap
          (with_type acl.resource_name acl.pattern_type acl.principal acl.host acl.operation
            acl.permission)
          (ap string_to_acl_resource_type (constants acl.resource_type)
            ∙ string_to_acl_resource_type-named acl.resource_type)

  -- If a field of an ACL has a `#`, then no ACL is read from its text.
  deserialize-serialize_refuses :
      (acl : Acl)
      → 0 < counts hash (fields acl)
      → deserialize_acl (serialize_acl type_text acl) ≡ error invalid_format
  unfolding deserialize_acl serialize_acl
  deserialize-serialize_refuses acl h =
      let parts = length-split hash (serialize_acl type_text acl) in
      let separators = count-join hash (type_text acl.resource_type) (fields acl) in
      acl_of_parts-other (split hash (serialize_acl type_text acl)) (omega arith)

  -- The text of an ACL has a `/` only in a field.
  count-serialize :
      (acl : Acl) → count slash (serialize_acl type_text acl) ≡ counts slash (fields acl)
  unfolding serialize_acl
  count-serialize acl =
      let none_there =
        ap (count slash) (constants acl.resource_type) ∙ named-Lacks-slash acl.resource_type in
      count-join_other slash hash (type_text acl.resource_type ∷ fields acl) refl ∙ omega arith

  -- If the cluster's id has no `/`, and no field of the ACL a `/` or a `#`, then the import reads the
  -- cluster and the ACL from the identifier that the creation has set.
  pub read_id-create_kafka_acl_id :
      (cluster_id : Text) (acl : Acl)
      → Lacks slash cluster_id
      → All (Lacks hash) (fields acl)
      → All (Lacks slash) (fields acl)
      → read_id (create_kafka_acl_id type_text cluster_id acl) ≡ ok (cluster_id, acl)
  unfolding read_id create_kafka_acl_id read_id_parts
  read_id-create_kafka_acl_id cluster_id acl plain no_hash no_slash =
      let no_slash_there = counts_zero slash (fields acl) no_slash in
      let whole = count-serialize acl in
      ap read_id_parts (
        split-part slash cluster_id (serialize_acl type_text acl) plain
        ∙ ap (λ p. cluster_id ∷ p)
            (split-last slash (serialize_acl type_text acl) (whole ∙ no_slash_there)))
      ∙ ap (with_cluster cluster_id) (deserialize-serialize acl no_hash)

  -- If a field of an ACL has a `/`, then the import refuses the
  -- identifier that the creation has set.
  read_id-create_kafka_acl_id_refuses :
      (cluster_id : Text) (acl : Acl)
      → 0 < counts slash (fields acl)
      → read_id (create_kafka_acl_id type_text cluster_id acl) ≡ error invalid_format
  unfolding read_id create_kafka_acl_id
  read_id-create_kafka_acl_id_refuses cluster_id acl h =
      let parts = length-split slash (create_kafka_acl_id type_text cluster_id acl) in
      let whole = count-serialize acl in
      let first : count slash (slash ∷ serialize_acl type_text acl)
          ≡ 1 + count slash (serialize_acl type_text acl) =
        refl in
      let both = count-++ slash cluster_id (slash ∷ serialize_acl type_text acl) in
      read_id_parts-other (split slash (create_kafka_acl_id type_text cluster_id acl)) (omega arith)
