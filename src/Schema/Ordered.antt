-- ===== src/Schema/Ordered.antt =====
-- The calls that a creation and a deletion make, in their order.
use terraform_provider_confl.Base.{
  ◌≡◌, refl, sym, Bool, true, false, Option, none, some, ◌∷◌, Bool-cases, Option-cases, inl, inr,
  if◌then◌else◌,
}
use mathlib.Core.Path.{subst}
use terraform_provider_confl.Http.Descriptive.{ApiError}
use terraform_provider_confl.Kafka.Settings.{Environment}
use terraform_provider_confl.Oauth.Decimal.{itoa}
use terraform_provider_confl.Schema.Id.{create_schema_id}
use terraform_provider_confl.Schema.Settings.{SchemaProvider}
use terraform_provider_confl.Schema.Request.{RegisterSchemaRequest}
use terraform_provider_confl.Schema.Registry.{
  SchemaData, SchemaRegistryRestClient, tested, registered, deleted, Log, SchemaApi, SchemaError,
  api, setting_missing,
}
use terraform_provider_confl.Schema.Loads.{SchemaHandled, set_schema_id}
use terraform_provider_confl.Schema.Handlers.{
  register_schema, validate_and_register, create_schema_request, schema_create,
  execute_schema_delete, schema_delete,
}
use terraform_provider_confl.Schema.Logged.{with_rest_client_cases, schema_read_log}

module _ (world : SchemaApi) (env : Environment) (client : SchemaProvider) (token : Bool) where
  -- What a creation may do: it stops before any call; or it asks whether the schema is compatible, and
  -- stops because the call fails, or, with the old schema in place of the new one, because it is not;
  -- or it registers the request that was found to be compatible.
  pub data Created (log : Log) (d : SchemaData) : SchemaHandled → Type 0 where
    no_settings : Created log d (some setting_missing, log, d)
    not_validated :
        (c : SchemaRegistryRestClient) (e : ApiError)
        → (world.test_compatibility_for_subject log c
            (create_schema_request d)
            d.now.subject_name).err
          ≡ some e
        → Created log d (some (api e), tested (create_schema_request d) d.now.subject_name ∷ log, d)
    incompatible :
        (c : SchemaRegistryRestClient) (e : SchemaError) (d' : SchemaData)
        → (world.test_compatibility_for_subject log c
            (create_schema_request d)
            d.now.subject_name).err
          ≡ none
        → (world.test_compatibility_for_subject log c
            (create_schema_request d)
            d.now.subject_name).value.is_compatible
          ≡ false
        → d'.now.schema ≡ d.old.schema
        → Created log d (some e, tested (create_schema_request d) d.now.subject_name ∷ log, d')
    validated :
        (c : SchemaRegistryRestClient) (e : Option SchemaError) (d' : SchemaData)
        → (world.test_compatibility_for_subject log c
            (create_schema_request d)
            d.now.subject_name).err
          ≡ none
        → (world.test_compatibility_for_subject log c
            (create_schema_request d)
            d.now.subject_name).value.is_compatible
          ≡ true
        → Created log d (
          e,
          registered (create_schema_request d) d.now.subject_name
              ∷ tested (create_schema_request d) d.now.subject_name
              ∷ log,
          d',
        )

  register_schema_log :
      (c : SchemaRegistryRestClient) (q : RegisterSchemaRequest) (log : Log) (d : SchemaData)
      → (register_schema world env client token c q log d).1 ≡ registered q d.now.subject_name ∷ log
  unfolding register_schema
  register_schema_log c q log d =
      elim (Option-cases (world.register log c q d.now.subject_name).err) [
        | inr (e, bad) ↦ rw (bad, register_schema) refl
        | inl ok_there ↦
            rw (ok_there, register_schema)
              (schema_read_log world env client token (registered q d.now.subject_name ∷ log) (
                set_schema_id
                  (create_schema_id c.cluster_id d.now.subject_name
                    (world.register log c q d.now.subject_name).value d.recreate_on_update)
                  d))
      ]

  validate_and_register-Created :
      (c : SchemaRegistryRestClient) (log : Log) (d : SchemaData)
      → Created log d
          (validate_and_register world env client token c (create_schema_request d) log d)
  unfolding validate_and_register
  validate_and_register-Created c log d =
      let q = create_schema_request d in
      let n = d.now.subject_name in
      let reply = world.test_compatibility_for_subject log c q n in
      elim (Option-cases reply.err) [
        | inr (e, bad) ↦ rw (bad, validate_and_register) (not_validated c e bad)
        | inl ok_there ↦ elim (Bool-cases reply.value.is_compatible) [
          | inr bad ↦
              rw (ok_there, bad, validate_and_register) (incompatible c _ _ ok_there bad refl)
          | inl good ↦
              let r = register_schema world env client token c q (tested q n ∷ log) d in
              let logged : Path Log r.1 (registered q n ∷ tested q n ∷ log) =
                register_schema_log c q (tested q n ∷ log) d in
              rw (ok_there, good, validate_and_register)
                (subst (λ l. Created log d (r.0, l, r.2)) (sym logged)
                  (validated c r.0 r.2 ok_there good))
        ]
      ]

  -- A creation registers at most one request, and only after this request was found to be compatible;
  -- if it was found not to be, then the resource has its old schema again.
  pub schema_create-Created :
      (log : Log) (d : SchemaData) → Created log d (schema_create world env client token log d)
  unfolding schema_create
  schema_create-Created log d =
      elim (with_rest_client_cases world env client token log d
        (λ c. validate_and_register world env client token c (create_schema_request d) log d)) [
          | inl none_there ↦ subst (Created log d) (sym none_there) no_settings
          | inr (c, same) ↦ subst (Created log d) (sym same) (validate_and_register-Created c log d)
        ]

  -- What a deletion may do: it stops before any call; it soft deletes the version, and that fails or is
  -- all that is asked for; or it soft deletes the version and, after that has succeeded, hard deletes it.
  pub data Deleted (log : Log) (d : SchemaData) : SchemaHandled → Type 0 where
    nothing_deleted : Deleted log d (some setting_missing, log, d)
    soft_failed :
        (e : SchemaError)
        → Deleted log d (some e, deleted d.now.subject_name (itoa d.now.version) false ∷ log, d)
    soft_deleted :
        d.hard_delete ≡ false
        → Deleted log d (none, deleted d.now.subject_name (itoa d.now.version) false ∷ log, d)
    then_hard :
        (c : SchemaRegistryRestClient) (e : Option SchemaError)
        → d.hard_delete ≡ true
        → (world.delete_schema_version log c d.now.subject_name (itoa d.now.version) false).err
          ≡ none
        → Deleted log d (
          e,
          deleted d.now.subject_name (itoa d.now.version) true
              ∷ deleted d.now.subject_name (itoa d.now.version) false
              ∷ log,
          d,
        )

  after_soft :
      (c : SchemaRegistryRestClient) (log : Log) (d : SchemaData) (hard : Bool)
      → d.hard_delete ≡ hard
      → (world.delete_schema_version log c d.now.subject_name (itoa d.now.version) false).err ≡ none
      → Deleted log d (
          if hard
          then execute_schema_delete world env client token c true
              (deleted d.now.subject_name (itoa d.now.version) false ∷ log)
              d
              (λ last. (none, last, d))
          else (none, deleted d.now.subject_name (itoa d.now.version) false ∷ log, d))
  unfolding execute_schema_delete
  after_soft c log d false asked soft = soft_deleted asked
  after_soft c log d true asked soft =
      let n = d.now.subject_name in
      let v = itoa d.now.version in
      elim (Option-cases (world.delete_schema_version (deleted n v false ∷ log) c n v true).err) [
        | inr (e, bad) ↦ rw (bad, execute_schema_delete) (then_hard c (some (api e)) asked soft)
        | inl ok_too ↦ rw (ok_too, execute_schema_delete) (then_hard c none asked soft)
      ]

  delete_both-Deleted :
      (c : SchemaRegistryRestClient) (log : Log) (d : SchemaData) (hard : Bool)
      → d.hard_delete ≡ hard
      → Deleted log d (
          execute_schema_delete world env client token c false log d (λ after.
            if hard
            then execute_schema_delete world env client token c true after d
                (λ last. (none, last, d))
            else (none, after, d)))
  unfolding execute_schema_delete
  delete_both-Deleted c log d hard asked =
      let n = d.now.subject_name in
      let v = itoa d.now.version in
      elim (Option-cases (world.delete_schema_version log c n v false).err) [
        | inr (e, bad) ↦ rw (bad, execute_schema_delete) (soft_failed (api e))
        | inl ok_there ↦
            rw (ok_there, execute_schema_delete) (after_soft c log d hard asked ok_there)
      ]

  -- A deletion soft deletes the version before it hard deletes it, hard deletes it only if the soft
  -- deletion has succeeded, and ends without an error and without a hard deletion only if none is asked
  -- for.
  pub schema_delete-Deleted :
      (log : Log) (d : SchemaData) → Deleted log d (schema_delete world env client token log d)
  unfolding schema_delete
  schema_delete-Deleted log d =
      elim (with_rest_client_cases world env client token log d (λ c.
        execute_schema_delete world env client token c false log d (λ after.
          if d.hard_delete
          then execute_schema_delete world env client token c true after d (λ last. (none, last, d))
          else (none, after, d)))) [
            | inl none_there ↦ subst (Deleted log d) (sym none_there) nothing_deleted
            | inr (c, same) ↦
                subst (Deleted log d) (sym same) (delete_both-Deleted c log d d.hard_delete refl)
          ]
