-- ===== src/Wait/Catalog.antt =====
-- utils_wait.go: the refresh functions for tags, business metadata and schema exporters. They read
-- `resp.StatusCode` of a failed call before they know that there is a response.
use terraform_provider_confl.Base.{
  false, ◌||◌, Option, none, some, List, [], ◌∷◌, String, ◌==◌, str_eq, if◌then◌else◌,
}
use terraform_provider_confl.Http.{status_not_found}
use terraform_provider_confl.Wait.{Call, api, Outcome, returned, panicked, found, failed}
use terraform_provider_confl.Wait.States.{state_provisioning, state_ready, state_unknown}

-- The first two tests of each function; `next` is what follows a call without an error.
unfoldable pub catalog_outcome : {A : Type 0} → Call A → (A → Outcome) → Outcome
catalog_outcome call next = elim call.err [
  | none ↦ next call.value
  | some e ↦ elim call.resp [
    | none ↦ panicked
    | some r ↦
        if r.status_code == status_not_found
        then returned false state_provisioning none
        else failed state_unknown (api e)
  ]
]

unfoldable pub tag_provision_status : ((tag_name : String) → Call (Unit {0})) → String → Outcome
unfolding catalog_outcome
tag_provision_status get tag_name = catalog_outcome (get tag_name) (λ _. found state_ready)

unfoldable pub business_metadata_provision_status :
    ((business_metadata_name : String) → Call (Unit {0})) → String → Outcome
unfolding catalog_outcome
business_metadata_provision_status get business_metadata_name =
    catalog_outcome (get business_metadata_name) (λ _. found state_ready)

-- A binding is the type name that it has.
unfoldable pub find_tag_binding_by_tag_name : List String → String → Option String
find_tag_binding_by_tag_name [] tag_name = none
find_tag_binding_by_tag_name (binding ∷ bindings) tag_name =
    if str_eq binding tag_name then some binding else find_tag_binding_by_tag_name bindings tag_name

unfoldable pub find_business_metadata_binding_by_business_metadata_name :
    List String → String → Option String
find_business_metadata_binding_by_business_metadata_name [] name = none
find_business_metadata_binding_by_business_metadata_name (binding ∷ bindings) name =
    if str_eq binding name
    then some binding
    else find_business_metadata_binding_by_business_metadata_name bindings name

abbrev pub found_or_provisioning : Option String → Outcome
found_or_provisioning none = returned false state_provisioning none
found_or_provisioning (some binding) = found state_ready

abbrev pub GetBindings : Type 0
GetBindings = (entity_type entity_name : String) → Call (List String)

unfoldable pub tag_binding_provision_status : GetBindings → String → String → String → Outcome
unfolding catalog_outcome
tag_binding_provision_status get tag_name entity_name entity_type =
    catalog_outcome (get entity_type entity_name)
      (λ bindings. found_or_provisioning (find_tag_binding_by_tag_name bindings tag_name))

unfoldable pub business_metadata_binding_provision_status :
    GetBindings → String → String → String → Outcome
unfolding catalog_outcome
business_metadata_binding_provision_status get name entity_name entity_type =
    catalog_outcome (get entity_type entity_name) (λ bindings.
      found_or_provisioning
        (find_business_metadata_binding_by_business_metadata_name bindings name))

unfoldable pub exporter_outcome : String → Outcome
exporter_outcome state =
    if str_eq state "STARTING"
    then found state_provisioning
    else if str_eq state "RUNNING" || str_eq state "PAUSED"
    then found state_ready
    else returned false state_unknown none

unfoldable pub schema_exporter_provision_status : ((name : String) → Call String) → String → Outcome
unfolding catalog_outcome exporter_outcome
schema_exporter_provision_status get name = catalog_outcome (get name) exporter_outcome
