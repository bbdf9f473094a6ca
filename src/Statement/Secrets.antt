-- ===== src/Statement/Secrets.antt =====
-- Sensitive properties stay out of the other properties.
use terraform_provider_confl.Base.{
  ℕ, ◌≡◌, refl, Bool, true, false, not, ◌&&◌, ◌||◌, Option, none, some, List, [], ◌∷◌, String, All,
  Option-cases, inl, inr, ◌⊎◌, if◌then◌else◌,
}
use terraform_provider_confl.Http.{is_non_kafka_rest_api_resource_not_found}
use terraform_provider_confl.Http.Descriptive.{ApiError, create_descriptive_error}
use terraform_provider_confl.Wait.Sdk.{Waiter}
use terraform_provider_confl.Statement.Settings.{FlinkProvider, FlinkEnvironment}
use terraform_provider_confl.Statement.Properties.{
  FlinkProperties, is_sensitive_setting, extract_nonsensitive_properties,
}
use terraform_provider_confl.Statement.Gateway.{
  FlinkData, FlinkRestClient, FlinkLog, FlinkApi, FlinkError, api, FlinkHandled,
}
use terraform_provider_confl.Statement.Reads.{
  set_flink_id, set_flink_statement_attributes, read_flink_statement_and_set_attributes,
}
use terraform_provider_confl.Statement.Handlers.{
  FlinkChanges, differ, flink_statement_read, flink_statement_create, stop_statement,
  resume_statement, flink_statement_import, flink_statement_stop, flink_statement_resume,
  flink_statement_update,
}
use terraform_provider_confl.Statement.Throughout.{
  with_client_all, read_all, stop_statement_all, resume_statement_all, flink_statement_create_all,
  flink_statement_import_all, is_refusal,
}

-- No property has a name that starts with `sql.secrets`.
abbrev pub NoSecret : FlinkProperties → Type 0
NoSecret properties = All (λ p. is_sensitive_setting p.0 ≡ false) properties

keeps :
    (b : Bool) (name value : String) (rest : FlinkProperties)
    → is_sensitive_setting name ≡ b
    → NoSecret rest
    → NoSecret (if b then rest else (name, value) ∷ rest)
keeps true name value rest h others = others
keeps false name value rest h others = (h, others)

extract_nonsensitive_properties-NoSecret :
    (properties : FlinkProperties) → NoSecret (extract_nonsensitive_properties properties)
unfolding extract_nonsensitive_properties
extract_nonsensitive_properties-NoSecret [] = tt
extract_nonsensitive_properties-NoSecret ((name, value) ∷ properties) =
    keeps (is_sensitive_setting name) name value (extract_nonsensitive_properties properties) refl
      (extract_nonsensitive_properties-NoSecret properties)

-- If the handler ends without an error, then the resource is gone or has no secret.
abbrev pub Clean : FlinkHandled → Type 0
Clean (some e, after, d) = Unit
Clean (none, after, d) = (d.id ≡ "") ⊎ NoSecret d.properties

after_failure :
    (gone : Bool) (e : ApiError) (log : FlinkLog) (d : FlinkData)
    → Clean (if gone then (none, log, set_flink_id "" d) else (some (api e), log, d))
after_failure true e log d = inl refl
after_failure false e log d = tt

-- The handlers that set the properties.
pub data FlinkOperation : Type 0 where
  read import_it : FlinkOperation
  create_it : (generated : String) → FlinkOperation
  update_it : FlinkChanges → FlinkOperation

module _ (gunzip : List ℕ → Option (List ℕ)) (w : Waiter) (is_test : Bool) (world : FlinkApi)
    (env : FlinkEnvironment) (client : FlinkProvider) (token : Bool) where
  abbrev pub operate : FlinkOperation → FlinkLog → FlinkData → FlinkHandled
  operate read = flink_statement_read gunzip w is_test world env client token
  operate import_it = flink_statement_import gunzip w is_test world env client token
  operate (create_it generated) =
      flink_statement_create gunzip w is_test world env client token generated
  operate (update_it changes) =
      flink_statement_update gunzip w is_test world env client token changes

  errors :
      (e : FlinkError) (log : FlinkLog) (d : FlinkData)
      → is_refusal (some e) ≡ false
      → Clean (some e, log, d)
  errors e log d h = tt

  reads :
      (log : FlinkLog) (c : FlinkRestClient) (name : String) (d : FlinkData)
      → Clean (read_flink_statement_and_set_attributes gunzip world log c name d)
  unfolding read_flink_statement_and_set_attributes set_flink_statement_attributes
  reads log c name d = elim (Option-cases (world.get log c name).err) [
    | inl fine ↦
        rw (fine, read_flink_statement_and_set_attributes)
          (inr (extract_nonsensitive_properties-NoSecret (world.get log c name).value.properties))
    | inr (e, bad) ↦
        rw (bad, read_flink_statement_and_set_attributes)
          (after_failure
            (is_non_kafka_rest_api_resource_not_found
                (create_descriptive_error gunzip e (world.get log c name).resp).1
              && not d.is_new_resource)
            e log d)
  ]

  choice : (a : Bool) (r s : FlinkHandled) → Clean r → Clean s → Clean (if a then r else s)
  choice true r s x y = x
  choice false r s x y = y

  update-Clean :
      (changes : FlinkChanges) (log : FlinkLog) (d : FlinkData)
      → Clean (flink_statement_update gunzip w is_test world env client token changes log d)
  unfolding flink_statement_update flink_statement_stop flink_statement_resume
  update-Clean changes log d = choice changes.others _ _ tt (
      choice (differ d.old_stopped d.stopped || (changes.principal || changes.compute_pool)) _ _
        (choice (d.old_stopped && not d.stopped) _ _
          (choice (changes.others || changes.properties_sensitive) _ _ tt (
            with_client_all gunzip w is_test world env client token Clean errors reads true false
              log d (λ c. resume_statement gunzip w is_test world env client token c log d)
              (λ c.
                resume_statement_all gunzip w is_test world env client token Clean errors reads c
                  log d)))
          (choice (changes.others || (changes.principal || changes.compute_pool)) _ _ tt (
            with_client_all gunzip w is_test world env client token Clean errors reads true false
              log d (λ c. stop_statement gunzip w is_test world env client token c log d)
              (λ c.
                stop_statement_all gunzip w is_test world env client token Clean errors reads c log
                  d))))
        (read_all gunzip w is_test world env client token Clean errors reads log d))

  -- If a read, an import, a creation or an update ends without an error, then the resource is gone or has,
  -- outside its sensitive properties, no property whose name starts with `sql.secrets`.
  pub operate-Clean :
      (operation : FlinkOperation) (log : FlinkLog) (d : FlinkData)
      → Clean (operate operation log d)
  operate-Clean read log d =
      read_all gunzip w is_test world env client token Clean errors reads log d
  operate-Clean import_it log d =
      flink_statement_import_all gunzip w is_test world env client token Clean errors reads log d
  operate-Clean (create_it generated) log d =
      flink_statement_create_all gunzip w is_test world env client token Clean errors reads
        generated log d
  operate-Clean (update_it changes) log d = update-Clean changes log d
