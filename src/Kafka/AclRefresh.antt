-- ===== src/Kafka/AclRefresh.antt =====
-- A refresh of an ACL that the server still has leaves no difference to the configuration.
use terraform_provider_confl.Base.{◌≡◌, refl, sym, ap, ◌∙◌, false, none, [], ◌∷◌}
use terraform_provider_confl.Kafka.{Text}
use terraform_provider_confl.Kafka.Settings.{
  Provider, given, Environment, extract_kafka_cluster_id, extract_rest_endpoint,
  extract_cluster_api_key_and_api_secret,
}
use terraform_provider_confl.Kafka.Acl.{
  AclResourceType, named, with_type, Acl, Read, ok, error, create_kafka_acl_id,
  string_to_acl_resource_type,
}
use terraform_provider_confl.Kafka.AclHandlers.{
  Data, KafkaRestClient, AclApi, extract_acl, set_id, set_blocks, set_attributes, matched,
  read_acl_and_set_attributes, rest_client, kafka_acl_read,
}
use terraform_provider_confl.Kafka.AclDrift.{
  ok_inj, cluster_id_kept, rest_endpoint_kept, credentials_kept, string_to_acl_resource_type-ok,
}

-- The fields of an ACL that has been read from texts.
with_type-ok :
    (name pattern_type principal host operation permission : Text) (r : Read AclResourceType)
    (acl : Acl)
    → with_type name pattern_type principal host operation permission r ≡ ok acl
    → (r ≡ ok acl.resource_type)
      × (acl.resource_name ≡ name)
      × (acl.pattern_type ≡ pattern_type)
      × (acl.principal ≡ principal)
      × (acl.host ≡ host)
      × (acl.operation ≡ operation)
      × (acl.permission ≡ permission)
with_type-ok name pattern_type principal host operation permission (ok t) acl h =
    let same = sym (ok_inj h) in
    (
      ap (λ a. ok a.resource_type) (sym same),
      ap (λ a. a.resource_name) same,
      ap (λ a. a.pattern_type) same,
      ap (λ a. a.principal) same,
      ap (λ a. a.host) same,
      ap (λ a. a.operation) same,
      ap (λ a. a.permission) same,
    )
with_type-ok name pattern_type principal host operation permission (error e) acl h = absurd (cc)

module _ (world : AclApi) (env : Environment) (client : Provider) (d : Data)
    (rest_endpoint cluster_id : Text) (credentials : Text × Text)
    (has_endpoint : extract_rest_endpoint env client d.blocks false ≡ given rest_endpoint)
    (has_cluster : extract_kafka_cluster_id env client d.blocks false ≡ given cluster_id)
    (has_credentials : extract_cluster_api_key_and_api_secret env client d.blocks false
      ≡ given credentials) where
  abbrev pub used : KafkaRestClient
  used = rest_client world env client rest_endpoint cluster_id credentials

  set_blocks-kept : set_blocks client used d.blocks ≡ d.blocks
  unfolding set_blocks
  set_blocks-kept =
      let (key, secret) = credentials_kept env client d.blocks credentials has_credentials in
      rw
        (
          cluster_id_kept env client d.blocks cluster_id has_cluster,
          rest_endpoint_kept env client d.blocks rest_endpoint has_endpoint,
          key,
          secret,
        )
        refl

  -- The handler reaches the read with the settings of the provider, or of the resource's blocks.
  kafka_acl_read-reads :
      (acl : Acl)
      → extract_acl d ≡ ok acl
      → kafka_acl_read world env client d ≡ read_acl_and_set_attributes world env client used acl d
  unfolding kafka_acl_read
  kafka_acl_read-reads acl h =
      rw (has_endpoint, has_cluster, has_credentials, h, kafka_acl_read) refl

  set_attributes-kept :
      (acl : Acl)
      → ((t : AclResourceType) → world.type_text t ≡ named t)
      → extract_acl d ≡ ok acl
      → set_attributes world env client used acl acl d
        ≡ set_id (create_kafka_acl_id world.type_text cluster_id acl) d
  unfolding set_attributes set_id extract_acl
  set_attributes-kept acl constants h =
      let (type, name, pattern_type, principal, host, operation, permission) =
        with_type-ok d.resource_name d.pattern_type d.principal d.host d.operation d.permission
          (string_to_acl_resource_type d.resource_type) acl h in
      let type_kept =
        constants acl.resource_type
        ∙ string_to_acl_resource_type-ok d.resource_type acl.resource_type type in
      rw (set_blocks-kept, type_kept, name, pattern_type, principal, host, operation, permission)
        refl

  -- If the settings of an ACL are given and it is the one that the server answers with, then a read
  -- reports no error and changes no attribute: only the identifier is set, to that of the creation.
  -- The constants of the API's client are the words that the resource takes.
  pub kafka_acl_read-no_drift :
      (acl : Acl)
      → ((t : AclResourceType) → world.type_text t ≡ named t)
      → extract_acl d ≡ ok acl
      → (world.read used acl).err ≡ none
      → (world.read used acl).value ≡ acl ∷ []
      → kafka_acl_read world env client d
        ≡ (none, set_id (create_kafka_acl_id world.type_text cluster_id acl) d)
  unfolding read_acl_and_set_attributes matched
  kafka_acl_read-no_drift acl constants h fine answered =
      kafka_acl_read-reads acl h
      ∙ rw (fine, answered, read_acl_and_set_attributes, matched)
          (ap (λ left. (none, left)) (set_attributes-kept acl constants h))
