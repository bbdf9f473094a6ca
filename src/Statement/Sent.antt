-- ===== src/Statement/Sent.antt =====
-- The calls that an update makes.
use terraform_provider_confl.Base.{
  ℕ, ◌≡◌, refl, sym, Bool, true, false, not, ◌&&◌, ◌||◌, Option, none, some, List, ◌∷◌, String,
  Bool-cases, Option-cases, inl, inr, if◌then◌else◌,
}
use mathlib.Core.Path.{subst}
use mathlib.Core.Bool.{false≢true}
use terraform_provider_confl.Http.{is_non_kafka_rest_api_resource_not_found}
use terraform_provider_confl.Http.Descriptive.{ApiError, create_descriptive_error}
use terraform_provider_confl.Wait.Sdk.{Waiter}
use terraform_provider_confl.Statement.Settings.{FlinkProvider, FlinkEnvironment}
use terraform_provider_confl.Statement.Gateway.{
  FlinkData, FlinkRestClient, updated, FlinkLog, FlinkApi, FlinkError, api, FlinkHandled,
}
use terraform_provider_confl.Statement.Reads.{set_flink_id, read_flink_statement_and_set_attributes}
use terraform_provider_confl.Statement.Handlers.{
  FlinkChanges, differ, stopped_statement, resumed_statement, with_flink_client,
  flink_statement_read, stop_statement, resume_statement, flink_statement_stop,
  flink_statement_resume, flink_statement_update,
}
use terraform_provider_confl.Statement.Throughout.{
  is_refusal, ClientOf, with_flink_client_made, flink_statement_read_all, send_update_all,
}

-- The log of a result is that one.
abbrev Leaves : FlinkLog → FlinkHandled → Type 0
Leaves log r = r.1 ≡ log

either-Leaves :
    (gone : Bool) (e : ApiError) (log : FlinkLog) (d : FlinkData)
    → Leaves log (if gone then (none, log, set_flink_id "" d) else (some (api e), log, d))
either-Leaves true e log d = refl
either-Leaves false e log d = refl

or_both_false : (a b : Bool) → (a || b) ≡ false → (a ≡ false) × (b ≡ false)
or_both_false true b h = absurd (false≢true (sym h))
or_both_false false b h = (refl, h)

and_both_true : (a b : Bool) → (a && b) ≡ true → (a ≡ true) × (b ≡ true)
and_both_true true b h = (refl, h)
and_both_true false b h = absurd (false≢true h)

is_false : (a : Bool) → not a ≡ true → a ≡ false
is_false false h = refl
is_false true h = absurd (false≢true h)

module _ (gunzip : List ℕ → Option (List ℕ)) (w : Waiter) (is_test : Bool) (world : FlinkApi)
    (env : FlinkEnvironment) (client : FlinkProvider) (token : Bool) where
  -- What an update may send, with the ids and the credentials of the resource's settings: nothing; or, if
  -- neither the principal nor the compute pool changes, the statement as it was read, which is not
  -- stopped, but stopped; or, if `stopped` changes to false and the sensitive properties do not change, the
  -- statement as it was read, but not stopped and with the principal and the compute pool of the settings.
  pub data Sent (changes : FlinkChanges) (d : FlinkData) (log : FlinkLog) : FlinkLog → Type 0 where
    nothing_sent : Sent changes d log log
    stop_sent :
        (c : FlinkRestClient)
        → ClientOf env client true false d c
        → (world.get log c d.statement_name).err ≡ none
        → (world.get log c d.statement_name).value.stopped ≡ false
        → changes.principal ≡ false
        → changes.compute_pool ≡ false
        → Sent changes d log (
            updated d.statement_name
              (record (world.get log c d.statement_name).value { stopped = true })
            ∷ log)
    resume_sent :
        (c : FlinkRestClient)
        → ClientOf env client true false d c
        → (world.get log c d.statement_name).err ≡ none
        → d.old_stopped ≡ true
        → d.stopped ≡ false
        → changes.properties_sensitive ≡ false
        → Sent changes d log (
            updated d.statement_name (record (world.get log c d.statement_name).value {
              stopped = false;
              principal = c.principal_id;
              compute_pool_id = c.compute_pool_id;
            })
            ∷ log)

  read-Leaves :
      (log : FlinkLog) (c : FlinkRestClient) (name : String) (d : FlinkData)
      → Leaves log (read_flink_statement_and_set_attributes gunzip world log c name d)
  unfolding read_flink_statement_and_set_attributes
  read-Leaves log c name d = elim (Option-cases (world.get log c name).err) [
    | inl fine ↦ rw (fine, read_flink_statement_and_set_attributes) refl
    | inr (e, bad) ↦
        rw (bad, read_flink_statement_and_set_attributes)
          (either-Leaves
            (is_non_kafka_rest_api_resource_not_found
                (create_descriptive_error gunzip e (world.get log c name).resp).1
              && not d.is_new_resource)
            e log d)
  ]

  errors-Leaves :
      (e : FlinkError) (log : FlinkLog) (d : FlinkData)
      → is_refusal (some e) ≡ false
      → Leaves log (some e, log, d)
  errors-Leaves e log d h = refl

  abbrev Sends : FlinkChanges → FlinkData → FlinkLog → FlinkHandled → Type 0
  Sends changes u log r = Sent changes u log r.1

  Leaves-Sends :
      (changes : FlinkChanges) (u : FlinkData) (log : FlinkLog) (r : FlinkHandled)
      → Leaves log r
      → Sends changes u log r
  Leaves-Sends changes u log r same = subst (λ l. Sent changes u log l) (sym same) nothing_sent

  read-Sends :
      (changes : FlinkChanges) (u : FlinkData) (log : FlinkLog) (d : FlinkData)
      → Sends changes u log (flink_statement_read gunzip w is_test world env client token log d)
  read-Sends changes u log d =
      Leaves-Sends changes u log
        (flink_statement_read gunzip w is_test world env client token log d)
        (flink_statement_read_all gunzip w is_test world env client token Leaves errors-Leaves
          read-Leaves log d)

  client-Sends :
      (changes : FlinkChanges) (u : FlinkData) (log : FlinkLog) (d : FlinkData)
      (next : FlinkRestClient → FlinkHandled)
      → ((c : FlinkRestClient) → ClientOf env client true false d c → Sends changes u log (next c))
      → Sends changes u log
          (with_flink_client gunzip w is_test world env client token true false log d next)
  client-Sends changes u log d next h =
      with_flink_client_made gunzip w is_test world env client token (Sends changes u)
        (λ e. λ l. λ v. λ ok. nothing_sent)
        (λ l. λ c. λ name. λ v.
          Leaves-Sends changes u l (read_flink_statement_and_set_attributes gunzip world l c name v)
            (read-Leaves l c name v))
        true false log d next h

  stop_statement-Sends :
      (changes : FlinkChanges) (c : FlinkRestClient) (log : FlinkLog) (d : FlinkData)
      → ClientOf env client true false d c
      → changes.principal ≡ false
      → changes.compute_pool ≡ false
      → Sends changes d log (stop_statement gunzip w is_test world env client token c log d)
  unfolding stop_statement
  stop_statement-Sends changes c log d made p q =
      elim (Option-cases (world.get log c d.statement_name).err) [
        | inr (e, bad) ↦ rw (bad, stop_statement) nothing_sent
        | inl fine ↦ elim (Bool-cases (world.get log c d.statement_name).value.stopped) [
          | inl there ↦ rw (fine, there, stop_statement) (read-Sends changes d log d)
          | inr runs ↦
              let s = stopped_statement (world.get log c d.statement_name).value in
              let sent =
                send_update_all gunzip w is_test world env client token Leaves errors-Leaves
                  read-Leaves c true s log d in
              rw (fine, runs, stop_statement)
                (subst (λ l. Sent changes d log l) (sym sent) (stop_sent c made fine runs p q))
        ]
      ]

  resume_statement-Sends :
      (changes : FlinkChanges) (c : FlinkRestClient) (log : FlinkLog) (d : FlinkData)
      → ClientOf env client true false d c
      → d.old_stopped ≡ true
      → d.stopped ≡ false
      → changes.properties_sensitive ≡ false
      → Sends changes d log (resume_statement gunzip w is_test world env client token c log d)
  unfolding resume_statement
  resume_statement-Sends changes c log d made old now s =
      elim (Option-cases (world.get log c d.statement_name).err) [
        | inr (e, bad) ↦ rw (bad, resume_statement) nothing_sent
        | inl fine ↦
            let resumed = resumed_statement c (world.get log c d.statement_name).value in
            let sent =
              send_update_all gunzip w is_test world env client token Leaves errors-Leaves
                read-Leaves c false resumed log d in
            rw (fine, resume_statement)
              (subst (λ l. Sent changes d log l) (sym sent) (resume_sent c made fine old now s))
      ]

  branches_send :
      (changes : FlinkChanges) (d : FlinkData) (log : FlinkLog) (b : Bool) (r s : FlinkHandled)
      → (b ≡ true → Sends changes d log r)
      → (b ≡ false → Sends changes d log s)
      → Sends changes d log (if b then r else s)
  branches_send changes d log true r s x y = x refl
  branches_send changes d log false r s x y = y refl

  -- An update makes one call at most. It sends the statement as it was read, but stopped, if that is not
  -- stopped and neither the principal nor the compute pool changes; or, if `stopped` changes to false and the
  -- sensitive properties do not change, the statement as it was read, but not stopped and with the
  -- principal and the compute pool of the resource's settings.
  pub flink_statement_update-Sent :
      (changes : FlinkChanges) (log : FlinkLog) (d : FlinkData)
      → Sent changes d log
          (flink_statement_update gunzip w is_test world env client token changes log d).1
  unfolding flink_statement_update flink_statement_stop flink_statement_resume
  flink_statement_update-Sent changes log d =
      branches_send changes d log changes.others _ _ (λ _. nothing_sent)
        (λ only.
          branches_send changes d log
            (differ d.old_stopped d.stopped || (changes.principal || changes.compute_pool)) _ _
            (λ _.
              branches_send changes d log (d.old_stopped && not d.stopped) _ _
                (λ resumes.
                  branches_send changes d log (changes.others || changes.properties_sensitive) _ _
                    (λ _. nothing_sent)
                    (λ plain.
                      let (was, now) = and_both_true d.old_stopped (not d.stopped) resumes in
                      let kept =
                        (or_both_false changes.others changes.properties_sensitive plain).1 in
                      client-Sends changes d log d
                        (λ c. resume_statement gunzip w is_test world env client token c log d)
                        (λ c made.
                          resume_statement-Sends changes c log d made was (is_false d.stopped now)
                            kept)))
                (λ _.
                  branches_send changes d log
                    (changes.others || (changes.principal || changes.compute_pool)) _ _
                    (λ _. nothing_sent)
                    (λ plain.
                      let both =
                        (or_both_false changes.others (changes.principal || changes.compute_pool)
                          plain).1 in
                      let (p, q) = or_both_false changes.principal changes.compute_pool both in
                      client-Sends changes d log d
                        (λ c. stop_statement gunzip w is_test world env client token c log d)
                        (λ c made. stop_statement-Sends changes c log d made p q))))
            (λ _. read-Sends changes d log d))
