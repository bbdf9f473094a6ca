-- ===== src/Wait/Unanswered.antt =====
-- A refresh of a tag, of business metadata, of a binding or of a schema exporter whose call has
-- failed without a response.
use terraform_provider_confl.Base.{
  ◌≡◌, ◌≢◌, ◌↔◌, refl, ◌||◌, Option, none, some, String, ◌==◌, str_eq, Bool-cases, Option-cases,
  inl, inr,
}
use terraform_provider_confl.Http.{status_not_found}
use terraform_provider_confl.Http.Descriptive.{ApiError}
use terraform_provider_confl.Wait.{Call, Outcome, found, panicked}
use terraform_provider_confl.Wait.States.{state_ready}
use terraform_provider_confl.Wait.Catalog.{
  catalog_outcome, GetBindings, tag_provision_status, business_metadata_provision_status,
  tag_binding_provision_status, business_metadata_binding_provision_status, exporter_outcome,
  schema_exporter_provision_status, find_tag_binding_by_tag_name, found_or_provisioning,
  find_business_metadata_binding_by_business_metadata_name,
}

-- A refresh: what is read, and by which call.
pub data Refresh : Type 0 where
  tag business_metadata : (get : String → Call (Unit {0})) (name : String) → Refresh
  tag_binding business_metadata_binding :
      (get : GetBindings) (name entity_name entity_type : String) → Refresh
  schema_exporter : (get : String → Call String) (name : String) → Refresh

abbrev pub status : Refresh → Outcome
status (tag get name) = tag_provision_status get name
status (business_metadata get name) = business_metadata_provision_status get name
status (tag_binding get name entity_name entity_type) =
    tag_binding_provision_status get name entity_name entity_type
status (business_metadata_binding get name entity_name entity_type) =
    business_metadata_binding_provision_status get name entity_name entity_type
status (schema_exporter get name) = schema_exporter_provision_status get name

abbrev Unread : {A : Type 0} → Call A → Type 0
Unread call = ((e : ApiError) × (call.err ≡ some e)) × (call.resp ≡ none)

-- The call of a refresh has failed, and has no response.
abbrev pub Unanswered : Refresh → Type 0
Unanswered (tag get name) = Unread (get name)
Unanswered (business_metadata get name) = Unread (get name)
Unanswered (tag_binding get name entity_name entity_type) = Unread (get entity_type entity_name)
Unanswered (business_metadata_binding get name entity_name entity_type) =
    Unread (get entity_type entity_name)
Unanswered (schema_exporter get name) = Unread (get name)

panics :
    {A : Type 0} (call : Call A) (next : A → Outcome)
    → Unread call
    → catalog_outcome call next ≡ panicked
unfolding catalog_outcome
panics call next ((e, failed), missing) = rw (failed, missing, catalog_outcome) refl

unanswered_of :
    {A : Type 0} (call : Call A) (next : A → Outcome)
    → ((a : A) → next a ≢ panicked)
    → catalog_outcome call next ≡ panicked
    → Unread call
unfolding catalog_outcome
unanswered_of call next returns h = elim (Option-cases call.err) [
  | inl fine ↦ absurd (returns call.value (rw (fine, catalog_outcome) at h))
  | inr (e, failed) ↦
      let h1 = rw (failed, catalog_outcome) at h in
      elim (Option-cases call.resp) [
        | inl missing ↦ ((e, failed), missing)
        | inr (r, there) ↦
            let h2 = rw there at h1 in
            elim (Bool-cases (r.status_code == status_not_found)) [
              | inl gone ↦ absurd (let h3 = rw gone at h2 in cc)
              | inr other ↦ absurd (let h3 = rw other at h2 in cc)
            ]
      ]
]

panics_iff :
    {A : Type 0} (call : Call A) (next : A → Outcome)
    → ((a : A) → next a ≢ panicked)
    → (catalog_outcome call next ≡ panicked) ↔ Unread call
panics_iff call next returns = (unanswered_of call next returns, panics call next)

found_returns : found state_ready ≢ panicked
found_returns h = cc

found_or_provisioning_returns : (o : Option String) → found_or_provisioning o ≢ panicked
found_or_provisioning_returns none h = absurd (cc)
found_or_provisioning_returns (some binding) h = absurd (cc)

exporter_outcome_returns : (state : String) → exporter_outcome state ≢ panicked
unfolding exporter_outcome
exporter_outcome_returns state h = elim (Bool-cases (str_eq state "STARTING")) [
  | inl starting ↦ absurd (let h1 = rw (starting, exporter_outcome) at h in cc)
  | inr other ↦
      let h1 = rw (other, exporter_outcome) at h in
      elim (Bool-cases (str_eq state "RUNNING" || str_eq state "PAUSED")) [
        | inl ready ↦ absurd (let h2 = rw ready at h1 in cc)
        | inr unknown ↦ absurd (let h2 = rw unknown at h1 in cc)
      ]
]

-- A refresh of a tag, of business metadata, of a binding of one of them or of a schema exporter
-- panics exactly when its call has failed without a response.
pub status-panics_iff : (refresh : Refresh) → (status refresh ≡ panicked) ↔ Unanswered refresh
unfolding tag_provision_status business_metadata_provision_status tag_binding_provision_status
    business_metadata_binding_provision_status schema_exporter_provision_status
status-panics_iff (tag get name) =
    panics_iff (get name) (λ _. found state_ready) (λ _. found_returns)
status-panics_iff (business_metadata get name) =
    panics_iff (get name) (λ _. found state_ready) (λ _. found_returns)
status-panics_iff (tag_binding get name entity_name entity_type) =
    panics_iff (get entity_type entity_name)
      (λ bindings. found_or_provisioning (find_tag_binding_by_tag_name bindings name))
      (λ bindings. found_or_provisioning_returns (find_tag_binding_by_tag_name bindings name))
status-panics_iff (business_metadata_binding get name entity_name entity_type) =
    panics_iff (get entity_type entity_name)
      (λ bindings.
        found_or_provisioning
          (find_business_metadata_binding_by_business_metadata_name bindings name))
      (λ bindings.
        found_or_provisioning_returns
          (find_business_metadata_binding_by_business_metadata_name bindings name))
status-panics_iff (schema_exporter get name) =
    panics_iff (get name) exporter_outcome exporter_outcome_returns
