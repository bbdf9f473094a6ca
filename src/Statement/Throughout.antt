-- ===== src/Statement/Throughout.antt =====
-- What holds of a handler's result if it holds of its errors and of a read.
use terraform_provider_confl.Base.{
  ℕ, ◌≡◌, refl, Bool, true, false, Option, none, some, List, ◌∷◌, String, Bool-cases, Option-cases,
  inl, inr, if◌then◌else◌,
}
use terraform_provider_confl.Wait.{Err}
use terraform_provider_confl.Wait.Sdk.{Waiter}
use terraform_provider_confl.Wait.Waiters.Flinks.{
  wait_for_flink_statement_to_provision, wait_for_flink_statement_to_be_updated,
}
use terraform_provider_confl.Kafka.Settings.{Setting, given, missing}
use terraform_provider_confl.Statement.Settings.{
  FlinkProvider, FlinkEnvironment, extract_flink_rest_endpoint, extract_flink_organization_id,
  extract_flink_environment_id, extract_flink_compute_pool_id, extract_flink_principal_id,
  extract_flink_api_key_and_api_secret,
}
use terraform_provider_confl.Statement.Properties.{create_flink_statement_id, parse_statement_name}
use terraform_provider_confl.Statement.Gateway.{
  FlinkStatement, FlinkData, FlinkRestClient, created, updated, FlinkLog, FlinkApi, FlinkError, api,
  wait, setting_missing, invalid_id, only_some_can_be_updated, only_stopped_can_be_updated,
  only_resume_can_be_updated, FlinkHandled,
}
use terraform_provider_confl.Statement.Reads.{set_flink_id, read_flink_statement_and_set_attributes}
use terraform_provider_confl.Statement.Handlers.{
  need_flink, after_wait, with_name, stopped_statement, resumed_statement, with_flink_client,
  flink_statement_read, flink_create_request, create_statement, import_statement,
  flink_statement_create, send_update, stop_statement, resume_statement, flink_statement_import,
}

-- The errors that say that a change is not possible.
abbrev pub is_refusal : Option FlinkError → Bool
is_refusal (some only_some_can_be_updated) = true
is_refusal (some only_stopped_can_be_updated) = true
is_refusal (some only_resume_can_be_updated) = true
is_refusal _ = false

-- A client whose ids and credentials are the settings of the resource; some handlers have no principal.
abbrev pub ClientOf :
    FlinkEnvironment
    → FlinkProvider
    → (with_principal is_import_operation : Bool) → FlinkData
    → FlinkRestClient
    → Type 0
ClientOf env client with_principal is_import d c =
    (extract_flink_rest_endpoint env client d.blocks is_import ≡ given c.rest_endpoint)
    × (extract_flink_organization_id env client d.blocks is_import ≡ given c.organization_id)
    × (extract_flink_environment_id env client d.blocks is_import ≡ given c.environment_id)
    × (extract_flink_compute_pool_id env client d.blocks is_import ≡ given c.compute_pool_id)
    × ((if with_principal
          then extract_flink_principal_id env client d.blocks is_import
          else given "")
        ≡ given c.principal_id)
    × (extract_flink_api_key_and_api_secret env client d.blocks is_import
        ≡ given (c.flink_api_key, c.flink_api_secret))

module _ (gunzip : List ℕ → Option (List ℕ)) (w : Waiter) (is_test : Bool) (world : FlinkApi)
    (env : FlinkEnvironment) (client : FlinkProvider) (token : Bool)
    (P : FlinkLog → FlinkHandled → Type 0)
    (errors : (e : FlinkError) (log : FlinkLog) (d : FlinkData)
      → is_refusal (some e) ≡ false
      → P log (some e, log, d))
    (reads : (log : FlinkLog) (c : FlinkRestClient) (name : String) (d : FlinkData)
      → P log (read_flink_statement_and_set_attributes gunzip world log c name d)) where
  need_flink_all {ℓ} :
      {A : Type ℓ} (log : FlinkLog) (d : FlinkData) (s : Setting A) (next : A → FlinkHandled)
      → ((a : A) → s ≡ given a → P log (next a))
      → P log (need_flink log d s next)
  need_flink_all log d (given a) next h = h a refl
  need_flink_all log d missing next h = errors setting_missing log d refl

  pub with_flink_client_made :
      (p i : Bool) (log : FlinkLog) (d : FlinkData) (next : FlinkRestClient → FlinkHandled)
      → ((c : FlinkRestClient) → ClientOf env client p i d c → P log (next c))
      → P log (with_flink_client gunzip w is_test world env client token p i log d next)
  unfolding with_flink_client
  with_flink_client_made p i log d next h =
      need_flink_all log d (extract_flink_rest_endpoint env client d.blocks i) _ (λ a endpoint.
        need_flink_all log d (extract_flink_organization_id env client d.blocks i) _ (λ b org.
          need_flink_all log d (extract_flink_environment_id env client d.blocks i) _ (λ c place.
            need_flink_all log d (extract_flink_compute_pool_id env client d.blocks i) _ (λ e pool.
              need_flink_all log d
                (if p then extract_flink_principal_id env client d.blocks i else given "") _
                (λ f principal.
                  need_flink_all log d (extract_flink_api_key_and_api_secret env client d.blocks i)
                    _ (λ g key. h _ (endpoint, org, place, pool, principal, key)))))))

  pub with_flink_client_all :
      (p i : Bool) (log : FlinkLog) (d : FlinkData) (next : FlinkRestClient → FlinkHandled)
      → ((c : FlinkRestClient) → P log (next c))
      → P log (with_flink_client gunzip w is_test world env client token p i log d next)
  with_flink_client_all p i log d next h = with_flink_client_made p i log d next (λ c made. h c)

  with_name_all :
      (log : FlinkLog) (d : FlinkData) (o : Option String) (next : String → FlinkHandled)
      → ((name : String) → P log (next name))
      → P log (with_name log d o next)
  with_name_all log d none next h = errors invalid_id log d refl
  with_name_all log d (some name) next h = h name

  after_wait_all :
      (log : FlinkLog) (d : FlinkData) (o : Option Err) (next : FlinkHandled)
      → P log next
      → P log (after_wait wait log d o next)
  after_wait_all log d none next h = h
  after_wait_all log d (some e) next h = errors (wait e) log d refl

  pub flink_statement_read_all :
      (log : FlinkLog) (d : FlinkData)
      → P log (flink_statement_read gunzip w is_test world env client token log d)
  unfolding flink_statement_read
  flink_statement_read_all log d =
      with_flink_client_all false false log d _
        (λ c. with_name_all log d (parse_statement_name d.id) _ (λ name. reads log c name d))

  pub send_update_all :
      (c : FlinkRestClient) (b : Bool) (s : FlinkStatement) (log : FlinkLog) (d : FlinkData)
      → P
          (updated d.statement_name s ∷ log)
          (send_update gunzip w is_test world env client token c b s log d)
  unfolding send_update
  send_update_all c b s log d =
      let after : FlinkLog = updated d.statement_name s ∷ log in
      elim (Option-cases (world.update log c d.statement_name s).err) [
        | inr (e, bad) ↦ rw (bad, send_update) (errors (api e) after d refl)
        | inl fine ↦
            rw (fine, send_update)
              (after_wait_all after d
                (wait_for_flink_statement_to_be_updated w is_test (λ n. world.poll after c n)
                  d.statement_name b)
                (flink_statement_read gunzip w is_test world env client token after d)
                (flink_statement_read_all after d))
      ]

module _ (gunzip : List ℕ → Option (List ℕ)) (w : Waiter) (is_test : Bool) (world : FlinkApi)
    (env : FlinkEnvironment) (client : FlinkProvider) (token : Bool) (Q : FlinkHandled → Type 0)
    (errors : (e : FlinkError) (log : FlinkLog) (d : FlinkData)
      → is_refusal (some e) ≡ false
      → Q (some e, log, d))
    (reads : (log : FlinkLog) (c : FlinkRestClient) (name : String) (d : FlinkData)
      → Q (read_flink_statement_and_set_attributes gunzip world log c name d)) where
  pub with_client_all :
      (p i : Bool) (log : FlinkLog) (d : FlinkData) (next : FlinkRestClient → FlinkHandled)
      → ((c : FlinkRestClient) → Q (next c))
      → Q (with_flink_client gunzip w is_test world env client token p i log d next)
  with_client_all p i log d next h =
      with_flink_client_all gunzip w is_test world env client token (λ _. Q)
        (λ e. λ l. λ u. errors e l u) reads p i log d next h

  pub read_all :
      (log : FlinkLog) (d : FlinkData)
      → Q (flink_statement_read gunzip w is_test world env client token log d)
  read_all log d =
      flink_statement_read_all gunzip w is_test world env client token (λ _. Q)
        (λ e. λ l. λ u. errors e l u) reads log d

  update_sent_all :
      (c : FlinkRestClient) (b : Bool) (s : FlinkStatement) (log : FlinkLog) (d : FlinkData)
      → Q (send_update gunzip w is_test world env client token c b s log d)
  update_sent_all c b s log d =
      send_update_all gunzip w is_test world env client token (λ _. Q) (λ e. λ l. λ u. errors e l u)
        reads c b s log d

  pub stop_statement_all :
      (c : FlinkRestClient) (log : FlinkLog) (d : FlinkData)
      → Q (stop_statement gunzip w is_test world env client token c log d)
  unfolding stop_statement
  stop_statement_all c log d = elim (Option-cases (world.get log c d.statement_name).err) [
    | inr (e, bad) ↦ rw (bad, stop_statement) (errors (api e) log d refl)
    | inl fine ↦ elim (Bool-cases (world.get log c d.statement_name).value.stopped) [
      | inl there ↦ rw (fine, there, stop_statement) (read_all log d)
      | inr runs ↦
          rw (fine, runs, stop_statement)
            (update_sent_all c true (stopped_statement (world.get log c d.statement_name).value) log
              d)
    ]
  ]

  pub resume_statement_all :
      (c : FlinkRestClient) (log : FlinkLog) (d : FlinkData)
      → Q (resume_statement gunzip w is_test world env client token c log d)
  unfolding resume_statement
  resume_statement_all c log d = elim (Option-cases (world.get log c d.statement_name).err) [
    | inr (e, bad) ↦ rw (bad, resume_statement) (errors (api e) log d refl)
    | inl fine ↦
        rw (fine, resume_statement)
          (update_sent_all c false (resumed_statement c (world.get log c d.statement_name).value)
            log d)
  ]

  wait_all :
      (log : FlinkLog) (d : FlinkData) (o : Option Err) (next : FlinkHandled)
      → Q next
      → Q (after_wait wait log d o next)
  wait_all log d none next h = h
  wait_all log d (some e) next h = errors (wait e) log d refl

  create_statement_all :
      (c : FlinkRestClient) (generated : String) (log : FlinkLog) (d : FlinkData)
      → Q (create_statement gunzip w is_test world env client token c generated log d)
  unfolding create_statement
  create_statement_all c generated log d =
      let request = flink_create_request generated c d in
      let reply = world.create log c request in
      let after : FlinkLog = created request ∷ log in
      elim (Option-cases reply.err) [
        | inr (e, bad) ↦ rw (bad, create_statement) (errors (api e) after d refl)
        | inl fine ↦
            let named =
              set_flink_id
                (create_flink_statement_id c.environment_id reply.value.compute_pool_id
                  reply.value.name)
                d in
            rw (fine, create_statement)
              (wait_all after named
                (wait_for_flink_statement_to_provision w is_test (λ n. world.poll after c n)
                  reply.value.name request.properties)
                (flink_statement_read gunzip w is_test world env client token after named)
                (read_all after named))
      ]

  pub flink_statement_create_all :
      (generated : String) (log : FlinkLog) (d : FlinkData)
      → Q (flink_statement_create gunzip w is_test world env client token generated log d)
  unfolding flink_statement_create
  flink_statement_create_all generated log d =
      with_client_all true false log d
        (λ c. create_statement gunzip w is_test world env client token c generated log d)
        (λ c. create_statement_all c generated log d)

  import_statement_all :
      (c : FlinkRestClient) (log : FlinkLog) (d : FlinkData)
      → Q (import_statement gunzip w is_test world env client token c log d)
  unfolding import_statement
  import_statement_all c log d =
      reads log c d.id
        (record (set_flink_id (create_flink_statement_id c.environment_id c.compute_pool_id d.id)
          d) { is_new_resource = true })

  pub flink_statement_import_all :
      (log : FlinkLog) (d : FlinkData)
      → Q (flink_statement_import gunzip w is_test world env client token log d)
  unfolding flink_statement_import
  flink_statement_import_all log d =
      with_client_all true true log d
        (λ c. import_statement gunzip w is_test world env client token c log d)
        (λ c. import_statement_all c log d)
