-- ===== src/Kafka/AclDrift.antt =====
-- A refresh of an ACL that the server still has.
use terraform_provider_confl.Base.{
  ◌≡◌, refl, sym, ap, ◌∙◌, true, false, not, ◌&&◌, [], ◌∷◌, ◌⊎◌, Bool-cases, inl, inr, ◌==◌, arith,
  if◌then◌else◌,
}
use terraform_provider_confl.Kafka.{Text}
use terraform_provider_confl.Kafka.AclState.{both_true}
use terraform_provider_confl.Kafka.Settings.{
  Provider, Blocks, given, missing, Environment, extract_kafka_cluster_id, extract_rest_endpoint,
  extract_cluster_api_key_and_api_secret, is_set, given_if_set,
}
use terraform_provider_confl.Kafka.Acl.{
  AclResourceType, unknown, any, topic, group, cluster, transactional_id, delegation_token, text_eq,
  named, Read, ok, string_to_acl_resource_type,
}

pub ok_inj {ℓ} : {A : Type ℓ} → {a b : A} → ok a ≡ ok b → a ≡ b
ok_inj h = cc

given_inj {ℓ} : {A : Type ℓ} → {a b : A} → given a ≡ given b → a ≡ b
given_inj h = cc

given_if_set-given : (s t : Text) → given_if_set s ≡ given t → t ≡ s
given_if_set-given [] t h = absurd (cc)
given_if_set-given (b ∷ s) t h = sym (given_inj h)

pair_if_set :
    (key secret : Text) (credentials : Text × Text)
    → (if is_set key then given (key, secret) else missing) ≡ given credentials
    → credentials ≡ (key, secret)
pair_if_set [] secret credentials h = absurd (cc)
pair_if_set (b ∷ key) secret credentials h = sym (given_inj h)

module _ (env : Environment) (client : Provider) (blocks : Blocks) where
  pub cluster_id_kept :
      (cluster_id : Text)
      → extract_kafka_cluster_id env client blocks false ≡ given cluster_id
      → (if not client.is_kafka_cluster_id_set then cluster_id else blocks.cluster_id)
        ≡ blocks.cluster_id
  unfolding extract_kafka_cluster_id
  cluster_id_kept cluster_id h = elim (Bool-cases client.is_kafka_cluster_id_set) [
    | inl set ↦ rw set refl
    | inr unset ↦
        let h1 = rw (unset, extract_kafka_cluster_id) at h in
        rw unset (given_if_set-given blocks.cluster_id cluster_id h1)
  ]

  pub rest_endpoint_kept :
      (rest_endpoint : Text)
      → extract_rest_endpoint env client blocks false ≡ given rest_endpoint
      → (if not client.is_kafka_metadata_set then rest_endpoint else blocks.rest_endpoint)
        ≡ blocks.rest_endpoint
  unfolding extract_rest_endpoint
  rest_endpoint_kept rest_endpoint h = elim (Bool-cases client.is_kafka_metadata_set) [
    | inl set ↦ rw set refl
    | inr unset ↦
        let h1 = rw (unset, extract_rest_endpoint) at h in
        rw unset (given_if_set-given blocks.rest_endpoint rest_endpoint h1)
  ]

  pub credentials_kept :
      (credentials : Text × Text)
      → extract_cluster_api_key_and_api_secret env client blocks false ≡ given credentials
      → ((if not client.is_kafka_metadata_set && not client.is_oauth_enabled
            then credentials.0
            else blocks.api_key)
          ≡ blocks.api_key)
        × ((if not client.is_kafka_metadata_set && not client.is_oauth_enabled
              then credentials.1
              else blocks.api_secret)
            ≡ blocks.api_secret)
  unfolding extract_cluster_api_key_and_api_secret
  credentials_kept credentials h = elim (Bool-cases client.is_kafka_metadata_set) [
    | inl set ↦ (rw set refl, rw set refl)
    | inr unset ↦ elim (Bool-cases client.is_oauth_enabled) [
      | inl oauth ↦ (rw (unset, oauth) refl, rw (unset, oauth) refl)
      | inr plain ↦
          let h1 = rw (unset, plain, extract_cluster_api_key_and_api_secret) at h in
          let same = pair_if_set blocks.api_key blocks.api_secret credentials h1 in
          (rw (unset, plain) (ap (λ p. p.0) same), rw (unset, plain) (ap (λ p. p.1) same))
    ]
  ]

pub text_eq_sound : (s t : Text) → text_eq s t ≡ true → s ≡ t
text_eq_sound [] [] h = refl
text_eq_sound [] (c ∷ t) h = absurd (cc)
text_eq_sound (b ∷ s) [] h = absurd (cc)
text_eq_sound (b ∷ s) (c ∷ t) h =
    let (first, others) = both_true (b == c) (text_eq s t) h in
    let same : b ≡ c = ground arith in let rest = text_eq_sound s t others in cc

-- A rung of the ladder of constants.
rung :
    (s : Text) (here t : AclResourceType) (below : Read AclResourceType)
    → (if text_eq s (named here) then ok here else below) ≡ ok t
    → (named t ≡ s) ⊎ (below ≡ ok t)
rung s here t below h = elim (Bool-cases (text_eq s (named here))) [
  | inl same ↦
      let h1 = rw same at h in
      inl (ap named (sym (ok_inj h1)) ∙ sym (text_eq_sound s (named here) same))
  | inr other ↦ inr (rw other at h)
]

pub string_to_acl_resource_type-ok :
    (s : Text) (t : AclResourceType) → string_to_acl_resource_type s ≡ ok t → named t ≡ s
unfolding string_to_acl_resource_type
string_to_acl_resource_type-ok s t h0 = elim (rung s unknown t _ h0) [
  | inl found ↦ found
  | inr h1 ↦ elim (rung s any t _ h1) [
    | inl found ↦ found
    | inr h2 ↦ elim (rung s topic t _ h2) [
      | inl found ↦ found
      | inr h3 ↦ elim (rung s group t _ h3) [
        | inl found ↦ found
        | inr h4 ↦ elim (rung s cluster t _ h4) [
          | inl found ↦ found
          | inr h5 ↦ elim (rung s transactional_id t _ h5) [
            | inl found ↦ found
            | inr h6 ↦ elim (rung s delegation_token t _ h6) [
              | inl found ↦ found
              | inr h7 ↦ absurd (cc)
            ]
          ]
        ]
      ]
    ]
  ]
]
