-- ===== src/Statement/Handlers.antt =====
-- internal/provider/resource_flink_statement.go: the handlers of the resource. A request's JSON is for
-- the log, and building it does not fail.
use terraform_provider_confl.Base.{
  ℕ, Bool, true, false, not, ◌&&◌, ◌||◌, Option, none, some, List, ◌∷◌, String, if◌then◌else◌,
}
use terraform_provider_confl.Wait.Sdk.{Waiter}
use terraform_provider_confl.Wait.Waiters.Flinks.{
  wait_for_flink_statement_to_provision, wait_for_flink_statement_to_be_updated,
}
use terraform_provider_confl.Wait.Waiters.Deleting.{wait_for_flink_statement_to_be_deleted}
use terraform_provider_confl.Kafka.Settings.{Setting, given, missing}
use terraform_provider_confl.Statement.Settings.{
  FlinkProvider, FlinkEnvironment, not_empty, extract_flink_rest_endpoint,
  extract_flink_organization_id, extract_flink_environment_id, extract_flink_compute_pool_id,
  extract_flink_principal_id, extract_flink_api_key_and_api_secret,
}
use terraform_provider_confl.Statement.Properties.{
  extract_flink_properties, create_flink_statement_id, parse_statement_name,
}
use terraform_provider_confl.Statement.Gateway.{
  FlinkStatement, FlinkData, FlinkRestClient, FlinkRequest, created, updated, deleted, FlinkLog,
  FlinkApi, FlinkError, api, wait, setting_missing, invalid_id, only_some_can_be_updated,
  only_stopped_can_be_updated, only_resume_can_be_updated, FlinkHandled,
}
use terraform_provider_confl.Statement.Reads.{set_flink_id, read_flink_statement_and_set_attributes}

-- What the SDK says has changed; `stopped` is compared by its two values.
pub record FlinkChanges : Type 0 where
  pub others : Bool
  pub principal : Bool
  pub compute_pool : Bool
  pub properties_sensitive : Bool

abbrev pub differ : Bool → Bool → Bool
differ true b = not b
differ false b = b

abbrev pub need_flink {ℓ} :
    {A : Type ℓ} → FlinkLog → FlinkData → Setting A → (A → FlinkHandled) → FlinkHandled
need_flink log d (given a) next = next a
need_flink log d missing next = (some setting_missing, log, d)

-- An error of a wait, or what follows it.
abbrev pub after_wait :
    {E : Type 0} → (E → FlinkError) → FlinkLog → FlinkData → Option E → FlinkHandled → FlinkHandled
after_wait as_error log d none next = next
after_wait as_error log d (some e) next = (some (as_error e), log, d)

abbrev pub with_name : FlinkLog → FlinkData → Option String → (String → FlinkHandled) → FlinkHandled
with_name log d none next = (some invalid_id, log, d)
with_name log d (some statement_name) next = next statement_name

-- `statement.Spec.SetStopped(true)`
abbrev pub stopped_statement : FlinkStatement → FlinkStatement
stopped_statement s = record s { stopped = true }

-- The three fields that a resume sets.
abbrev pub resumed_statement : FlinkRestClient → FlinkStatement → FlinkStatement
resumed_statement c s = record s {
  stopped = false;
  principal = c.principal_id;
  compute_pool_id = c.compute_pool_id;
}

-- `generated` is the name of `generateFlinkStatementName`.
unfoldable pub flink_create_request :
    (generated : String) → FlinkRestClient → FlinkData → FlinkRequest
unfolding extract_flink_properties
flink_create_request generated c d = record {
  name = if not_empty d.statement_name then d.statement_name else generated;
  statement = d.statement;
  properties = (extract_flink_properties d.properties_sensitive d.properties).0;
  compute_pool_id = c.compute_pool_id;
  principal = c.principal_id;
}

module _ (gunzip : List ℕ → Option (List ℕ)) (w : Waiter) (is_test : Bool) (world : FlinkApi)
    (env : FlinkEnvironment) (client : FlinkProvider) (token : Bool) where
  -- The settings of a handler, in this order; some handlers have no principal.
  unfoldable pub with_flink_client :
      (with_principal is_import_operation : Bool)
      → FlinkLog
      → FlinkData
      → (FlinkRestClient → FlinkHandled)
      → FlinkHandled
  unfolding extract_flink_rest_endpoint extract_flink_organization_id extract_flink_environment_id
      extract_flink_compute_pool_id extract_flink_principal_id extract_flink_api_key_and_api_secret
  with_flink_client with_principal is_import log d next =
      need_flink log d (extract_flink_rest_endpoint env client d.blocks is_import) (λ rest_endpoint.
        need_flink log d (extract_flink_organization_id env client d.blocks is_import)
          (λ organization_id.
            need_flink log d (extract_flink_environment_id env client d.blocks is_import)
              (λ environment_id.
                need_flink log d (extract_flink_compute_pool_id env client d.blocks is_import)
                  (λ compute_pool_id.
                    need_flink log d
                      (if with_principal
                        then extract_flink_principal_id env client d.blocks is_import
                        else given "")
                      (λ principal_id.
                        need_flink log d
                          (extract_flink_api_key_and_api_secret env client d.blocks is_import)
                          (λ key. next (record {
                            rest_endpoint = rest_endpoint;
                            organization_id = organization_id;
                            environment_id = environment_id;
                            compute_pool_id = compute_pool_id;
                            principal_id = principal_id;
                            flink_api_key = key.0;
                            flink_api_secret = key.1;
                            is_metadata_set_in_provider_block = client.is_flink_metadata_set;
                            has_external_access_token = token;
                          })))))))

  unfoldable pub flink_statement_read : FlinkLog → FlinkData → FlinkHandled
  unfolding with_flink_client parse_statement_name read_flink_statement_and_set_attributes
  flink_statement_read log d = with_flink_client false false log d (λ c.
      with_name log d (parse_statement_name d.id) (λ statement_name.
        read_flink_statement_and_set_attributes gunzip world log c statement_name d))

  unfoldable pub create_statement :
      FlinkRestClient → (generated : String) → FlinkLog → FlinkData → FlinkHandled
  unfolding flink_create_request create_flink_statement_id wait_for_flink_statement_to_provision
      flink_statement_read
  create_statement c generated log d =
      let request = flink_create_request generated c d in
      let reply = world.create log c request in
      let after : FlinkLog = created request ∷ log in
      elim reply.err [
        | some err ↦ (some (api err), after, d)
        | none ↦
            let named =
              set_flink_id
                (create_flink_statement_id c.environment_id reply.value.compute_pool_id
                  reply.value.name)
                d in
            after_wait wait after named
              (wait_for_flink_statement_to_provision w is_test (λ n. world.poll after c n)
                reply.value.name request.properties)
              (flink_statement_read after named)
      ]

  unfoldable pub flink_statement_create : (generated : String) → FlinkLog → FlinkData → FlinkHandled
  unfolding with_flink_client create_statement
  flink_statement_create generated log d =
      with_flink_client true false log d (λ c. create_statement c generated log d)

  -- The call that updates a statement, the wait for it, and the read.
  unfoldable pub send_update :
      FlinkRestClient → (to_stop : Bool) → FlinkStatement → FlinkLog → FlinkData → FlinkHandled
  unfolding wait_for_flink_statement_to_be_updated flink_statement_read
  send_update c to_stop statement log d =
      let after : FlinkLog = updated d.statement_name statement ∷ log in
      elim (world.update log c d.statement_name statement).err [
        | some err ↦ (some (api err), after, d)
        | none ↦
            after_wait wait after d
              (wait_for_flink_statement_to_be_updated w is_test (λ n. world.poll after c n)
                d.statement_name to_stop)
              (flink_statement_read after d)
      ]

  unfoldable pub stop_statement : FlinkRestClient → FlinkLog → FlinkData → FlinkHandled
  unfolding send_update flink_statement_read
  stop_statement c log d =
      let reply = world.get log c d.statement_name in
      elim reply.err [
        | some err ↦ (some (api err), log, d)
        | none ↦
            if not reply.value.stopped
            then send_update c true (stopped_statement reply.value) log d
            else flink_statement_read log d
      ]

  unfoldable pub flink_statement_stop : FlinkChanges → FlinkLog → FlinkData → FlinkHandled
  unfolding with_flink_client stop_statement
  flink_statement_stop changes log d =
      if changes.others || (changes.principal || changes.compute_pool)
      then (some only_stopped_can_be_updated, log, d)
      else with_flink_client true false log d (λ c. stop_statement c log d)

  unfoldable pub resume_statement : FlinkRestClient → FlinkLog → FlinkData → FlinkHandled
  unfolding send_update
  resume_statement c log d =
      let reply = world.get log c d.statement_name in
      elim reply.err [
        | some err ↦ (some (api err), log, d)
        | none ↦ send_update c false (resumed_statement c reply.value) log d
      ]

  unfoldable pub flink_statement_resume : FlinkChanges → FlinkLog → FlinkData → FlinkHandled
  unfolding with_flink_client resume_statement
  flink_statement_resume changes log d =
      if changes.others || changes.properties_sensitive
      then (some only_resume_can_be_updated, log, d)
      else with_flink_client true false log d (λ c. resume_statement c log d)

  unfoldable pub flink_statement_update : FlinkChanges → FlinkLog → FlinkData → FlinkHandled
  unfolding flink_statement_stop flink_statement_resume flink_statement_read
  flink_statement_update changes log d =
      if changes.others
      then (some only_some_can_be_updated, log, d)
      else if differ d.old_stopped d.stopped || (changes.principal || changes.compute_pool)
      then (if d.old_stopped && not d.stopped
          then flink_statement_resume changes log d
          else flink_statement_stop changes log d)
      else flink_statement_read log d

  unfoldable pub flink_statement_delete : FlinkLog → FlinkData → FlinkHandled
  unfolding with_flink_client wait_for_flink_statement_to_be_deleted
  flink_statement_delete log d = with_flink_client false false log d (λ c.
      let after : FlinkLog = deleted d.statement_name ∷ log in
      elim (world.delete log c d.statement_name).err [
        | some err ↦ (some (api err), after, d)
        | none ↦
            after_wait wait after d
              (wait_for_flink_statement_to_be_deleted gunzip w is_test (λ n. world.poll after c n)
                d.statement_name)
              (none, after, d)
      ])

  unfoldable pub import_statement : FlinkRestClient → FlinkLog → FlinkData → FlinkHandled
  unfolding create_flink_statement_id read_flink_statement_and_set_attributes
  import_statement c log d =
      let named =
        set_flink_id (create_flink_statement_id c.environment_id c.compute_pool_id d.id) d in
      read_flink_statement_and_set_attributes gunzip world log c d.id
        (record named { is_new_resource = true })

  unfoldable pub flink_statement_import : FlinkLog → FlinkData → FlinkHandled
  unfolding with_flink_client import_statement
  flink_statement_import log d = with_flink_client true true log d (λ c. import_statement c log d)
