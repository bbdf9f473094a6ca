-- ===== src/Statement/Guards.antt =====
-- Which changes an update refuses, and which a plan does.
use terraform_provider_confl.Base.{
  ℕ, ◌≡◌, refl, sym, Bool, true, false, not, ◌&&◌, ◌||◌, Option, none, some, List, String,
  Option-cases, inl, inr, if◌then◌else◌,
}
use mathlib.Core.Bool.{false≢true}
use terraform_provider_confl.Http.{is_non_kafka_rest_api_resource_not_found}
use terraform_provider_confl.Http.Descriptive.{ApiError, create_descriptive_error}
use terraform_provider_confl.Wait.Sdk.{Waiter}
use terraform_provider_confl.Statement.Settings.{FlinkProvider, FlinkEnvironment, not_empty}
use terraform_provider_confl.Statement.Gateway.{
  FlinkData, FlinkRestClient, FlinkLog, FlinkApi, FlinkError, api, only_some_can_be_updated,
  only_stopped_can_be_updated, only_resume_can_be_updated, FlinkHandled,
}
use terraform_provider_confl.Statement.Reads.{set_flink_id, read_flink_statement_and_set_attributes}
use terraform_provider_confl.Statement.Handlers.{
  FlinkChanges, differ, with_flink_client, flink_statement_read, stop_statement, resume_statement,
  flink_statement_stop, flink_statement_resume, flink_statement_update,
}
use terraform_provider_confl.Statement.Plan.{
  FlinkPlanError, first_of, principal_with_stop, compute_pool_with_stop, principal_without_resume,
  compute_pool_without_resume, resource_flink_statement_diff,
}
use terraform_provider_confl.Statement.Throughout.{
  with_client_all, read_all, stop_statement_all, resume_statement_all, is_refusal,
}

abbrev pub plan_refuses : Option FlinkPlanError → Bool
plan_refuses none = false
plan_refuses (some e) = true

abbrev Unrefused : FlinkHandled → Type 0
Unrefused r = is_refusal r.0 ≡ false

-- The guards of an update and those of a plan, on what they look at.
guards :
    (others known old now p q s : Bool) (log : FlinkLog) (d : FlinkData)
    (stop resume read : FlinkHandled)
    → others ≡ false
    → known ≡ true
    → is_refusal stop.0 ≡ false
    → is_refusal resume.0 ≡ false
    → is_refusal read.0 ≡ false
    → is_refusal
        (if others
          then (some only_some_can_be_updated, log, d)
          else if differ old now || (p || q)
          then (if old && not now
              then (if others || s then (some only_resume_can_be_updated, log, d) else resume)
              else if others || (p || q)
              then (some only_stopped_can_be_updated, log, d)
              else stop)
          else read).0
      ≡ (plan_refuses (
            if not known
            then none
            else if not old && now
            then first_of p q principal_with_stop compute_pool_with_stop
            else if not (differ old now)
            then first_of p q principal_without_resume compute_pool_without_resume
            else none)
          || (old && not now && s))
guards true known old now p q s log d stop resume read o k a b c = absurd (false≢true (sym o))
guards false false old now p q s log d stop resume read o k a b c = absurd (false≢true k)
guards false true true false p q true log d stop resume read o k a b c = refl
guards false true true false p q false log d stop resume read o k a b c = b
guards false true false true true q s log d stop resume read o k a b c = refl
guards false true false true false true s log d stop resume read o k a b c = refl
guards false true false true false false s log d stop resume read o k a b c = a
guards false true true true true q s log d stop resume read o k a b c = refl
guards false true true true false true s log d stop resume read o k a b c = refl
guards false true true true false false s log d stop resume read o k a b c = c
guards false true false false true q s log d stop resume read o k a b c = refl
guards false true false false false true s log d stop resume read o k a b c = refl
guards false true false false false false s log d stop resume read o k a b c = c

either :
    (gone : Bool) (e : ApiError) (log : FlinkLog) (d : FlinkData)
    → Unrefused (if gone then (none, log, set_flink_id "" d) else (some (api e), log, d))
either true e log d = refl
either false e log d = refl

module _ (gunzip : List ℕ → Option (List ℕ)) (w : Waiter) (is_test : Bool) (world : FlinkApi)
    (env : FlinkEnvironment) (client : FlinkProvider) (token : Bool) where
  errors :
      (e : FlinkError) (log : FlinkLog) (d : FlinkData)
      → is_refusal (some e) ≡ false
      → Unrefused (some e, log, d)
  errors e log d h = h

  reads :
      (log : FlinkLog) (c : FlinkRestClient) (name : String) (d : FlinkData)
      → Unrefused (read_flink_statement_and_set_attributes gunzip world log c name d)
  unfolding read_flink_statement_and_set_attributes
  reads log c name d = elim (Option-cases (world.get log c name).err) [
    | inl fine ↦ rw (fine, read_flink_statement_and_set_attributes) refl
    | inr (e, bad) ↦
        rw (bad, read_flink_statement_and_set_attributes)
          (either
            (is_non_kafka_rest_api_resource_not_found
                (create_descriptive_error gunzip e (world.get log c name).resp).1
              && not d.is_new_resource)
            e log d)
  ]

  -- An update of a statement that exists refuses a change of `stopped`, the principal, the compute pool and
  -- the sensitive properties just if a plan refuses it, or it is a resume that changes the sensitive
  -- properties; so a stop may change the sensitive properties too.
  pub flink_statement_update-refuses_as_planned :
      (changes : FlinkChanges) (log : FlinkLog) (d : FlinkData)
      → changes.others ≡ false
      → not_empty d.id ≡ true
      → is_refusal (flink_statement_update gunzip w is_test world env client token changes log d).0
        ≡ (plan_refuses (resource_flink_statement_diff changes d)
            || (d.old_stopped && not d.stopped && changes.properties_sensitive))
  unfolding flink_statement_update flink_statement_stop flink_statement_resume
      resource_flink_statement_diff
  flink_statement_update-refuses_as_planned changes log d only known =
      guards changes.others (not_empty d.id) d.old_stopped d.stopped changes.principal
        changes.compute_pool changes.properties_sensitive log d
        (with_flink_client gunzip w is_test world env client token true false log d
          (λ c. stop_statement gunzip w is_test world env client token c log d))
        (with_flink_client gunzip w is_test world env client token true false log d
          (λ c. resume_statement gunzip w is_test world env client token c log d))
        (flink_statement_read gunzip w is_test world env client token log d) only known
        (with_client_all gunzip w is_test world env client token Unrefused errors reads true false
          log d (λ c. stop_statement gunzip w is_test world env client token c log d)
          (λ c.
            stop_statement_all gunzip w is_test world env client token Unrefused errors reads c log
              d))
        (with_client_all gunzip w is_test world env client token Unrefused errors reads true false
          log d (λ c. resume_statement gunzip w is_test world env client token c log d)
          (λ c.
            resume_statement_all gunzip w is_test world env client token Unrefused errors reads c
              log d))
        (read_all gunzip w is_test world env client token Unrefused errors reads log d)
