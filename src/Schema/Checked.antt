-- ===== src/Schema/Checked.antt =====
-- What a plan that is accepted has checked.
use terraform_provider_confl.Base.{
  ◌≡◌, sym, ◌∙◌, Bool, true, false, ◌&&◌, none, Option-cases, inl, inr, ◌⊎◌,
}
use mathlib.Core.Path.{subst}
use mathlib.Core.Bool.{false≢true}
use terraform_provider_confl.Kafka.{Text}
use terraform_provider_confl.Kafka.Settings.{is_set}
use terraform_provider_confl.Schema.Settings.{SchemaProvider}
use terraform_provider_confl.Schema.Request.{RegisterSchemaRequest}
use terraform_provider_confl.Schema.Registry.{
  SchemaData, SrSchema, SchemaRegistryRestClient, Log, SchemaApi,
}
use terraform_provider_confl.Schema.Plan.{
  exists_as, with_new_rule_set, planned_schema_request, has_schema_change, set_old_schema_value,
  schema_lookup_by_normalize, schema_lookup, try_schema_lookup, schema_lookup_check,
  schema_validate_check, checked_schema_diff, validated_schema_diff, planned_rest_client,
  can_be_checked, set_schema_diff,
}
use terraform_provider_confl.Schema.Passed.{
  accepted, own, first_lookup_lem, refuse_recreation_lem, is_own_lem, or_normalized_lem,
  validation_passed, known_id, with_change, both_set, compatible_passed,
}

module _ (world : SchemaApi) (client : SchemaProvider) (token : Bool) (log : Log) where
  -- The registry has a schema for a request that is the resource's own one.
  pub data HasOwn (c : SchemaRegistryRestClient) (d : SchemaData) (q : RegisterSchemaRequest)
      : Type 0 where
    own_schema :
        (normalize : Bool) (s : SrSchema)
        → schema_lookup_by_normalize world log c q d.now.subject_name normalize ≡ exists_as s
        → s.id ≡ d.now.schema_identifier
        → HasOwn c d q

  try_schema_lookup_lem :
      (c : SchemaRegistryRestClient) (d : SchemaData) (q : RegisterSchemaRequest)
      → try_schema_lookup world log d c q d.now.subject_name ≡ own
      → HasOwn c d q
  unfolding try_schema_lookup schema_lookup
  try_schema_lookup_lem c d q h =
      let n = d.now.subject_name in
      let (s, there, same) = is_own_lem d.now.schema_identifier (schema_lookup world log c q n) h in
      elim (or_normalized_lem (schema_lookup_by_normalize world log c q n false)
        (schema_lookup_by_normalize world log c q n true) s there) [
          | inl first ↦ own_schema false s first same
          | inr second ↦ own_schema true s second same
        ]

  schema_validate_check_lem :
      (c : SchemaRegistryRestClient) (q : RegisterSchemaRequest) (n : Text)
      → schema_validate_check world log c q n ≡ none
      → ((world.test_compatibility_for_subject log c q n).err ≡ none)
        × ((world.test_compatibility_for_subject log c q n).value.is_compatible ≡ true)
  unfolding schema_validate_check
  schema_validate_check_lem c q n h =
      elim (Option-cases (world.test_compatibility_for_subject log c q n).err) [
        | inr (e, bad) ↦ absurd (let h1 = rw (bad, schema_validate_check) at h in cc)
        | inl ok_there ↦
            (ok_there, compatible_passed _ _ (rw (ok_there, schema_validate_check) at h))
      ]

  -- A changed schema that has passed all that is looked at before the last test.
  accepted_plan :
      (d d' : SchemaData)
      → has_schema_change d ≡ true
      → can_be_checked client (planned_rest_client client token d) ≡ true
      → set_schema_diff world client token log d ≡ accepted d'
      → (checked_schema_diff world
            (planned_rest_client client token d)
            (planned_schema_request d)
            log
            d
          ≡ accepted d')
        × ((d.skip_validation_during_plan ≡ true)
            ⊎ (schema_validate_check world log
                  (planned_rest_client client token d)
                  (planned_schema_request d)
                  d.now.subject_name
                ≡ none))
  unfolding set_schema_diff validated_schema_diff
  accepted_plan d d' changed can h =
      let c = planned_rest_client client token d in
      let q = planned_schema_request d in
      let h1 =
        with_change (has_schema_change d) (can_be_checked client c)
          (validated_schema_diff world c q log d) d d' changed can h in
      validation_passed d.skip_validation_during_plan
        (schema_validate_check world log c q d.now.subject_name)
        (checked_schema_diff world c q log d) d d' h1

  -- An accepted plan for a changed schema has been validated: the registry has answered that the schema
  -- is compatible, if its settings are known and validation is not skipped.
  pub set_schema_diff_validated :
      (d d' : SchemaData)
      → has_schema_change d ≡ true
      → can_be_checked client (planned_rest_client client token d) ≡ true
      → d.skip_validation_during_plan ≡ false
      → set_schema_diff world client token log d ≡ accepted d'
      → ((world.test_compatibility_for_subject log
            (planned_rest_client client token d)
            (planned_schema_request d)
            d.now.subject_name).err
          ≡ none)
        × ((world.test_compatibility_for_subject log
              (planned_rest_client client token d)
              (planned_schema_request d)
              d.now.subject_name).value.is_compatible
            ≡ true)
  set_schema_diff_validated d d' changed can checks h = elim (accepted_plan d d' changed can h).1 [
    | inl skip ↦ absurd (false≢true (sym checks ∙ skip))
    | inr passed ↦ schema_validate_check_lem _ _ _ passed
  ]

  -- An accepted plan for a changed schema of a resource that exists and has `recreate_on_update` puts the
  -- old schema back, and the registry has found, for the new one, the resource's own schema: under the
  -- request or, if the request has no ruleset, under the request with an empty one. The settings are known.
  pub set_schema_diff_own :
      (d d' : SchemaData)
      → has_schema_change d ≡ true
      → can_be_checked client (planned_rest_client client token d) ≡ true
      → is_set d.id ≡ true
      → d.recreate_on_update ≡ true
      → set_schema_diff world client token log d ≡ accepted d'
      → (d' ≡ set_old_schema_value d)
        × (HasOwn (planned_rest_client client token d) d (planned_schema_request d)
            ⊎ (((planned_schema_request d).rule_set ≡ none)
                × HasOwn
                    (planned_rest_client client token d)
                    d
                    (with_new_rule_set (planned_schema_request d))))
  unfolding checked_schema_diff schema_lookup_check
  set_schema_diff_own d d' changed can known recreate h =
      let c = planned_rest_client client token d in
      let q = planned_schema_request d in
      let h1 = (accepted_plan d d' changed can h).0 in
      let h2 = known_id d.id _ d d' known h1 in
      let (looked, unchanged) = refuse_recreation_lem _ d' h2 in
      elim (first_lookup_lem d d' q (try_schema_lookup world log d c q d.now.subject_name)
        (try_schema_lookup world log d c (with_new_rule_set q) d.now.subject_name) looked) [
          | inl (first, same) ↦ (sym same, inl (try_schema_lookup_lem c d q first))
          | inr (inl (lacks, second, same)) ↦
              (sym same, inr (lacks, try_schema_lookup_lem c d (with_new_rule_set q) second))
          | inr (inr same) ↦
              let still : (d.recreate_on_update && has_schema_change d) ≡ false =
                subst (λ u. (u.recreate_on_update && has_schema_change u) ≡ false) (sym same)
                  unchanged in
              absurd (false≢true (sym still ∙ both_set _ _ recreate changed))
        ]
