-- ===== src/Wait/Special.antt =====
-- utils_wait.go: refresh functions for Cloud resources whose ladders have rungs of their own.
use terraform_provider_confl.Base.{
  ℕ, ◌+◌, Bool, ◌&&◌, none, some, List, [], ◌∷◌, String, ◌==◌, leb, str_eq, one_of, codes, contains,
  if◌then◌else◌, map,
}
use terraform_provider_confl.Wait.{
  Call, Resource, Get, status_is, unexpected_state, text, Outcome, found, failed, on_success,
}
use terraform_provider_confl.Wait.States.{
  state_created, state_degraded, state_disconnected, state_done, state_error, state_expired,
  state_failed, state_in_progress, state_pending_accept, state_provisioned, state_provisioning,
  state_ready, state_running, state_unexpected, state_unknown,
}
use terraform_provider_confl.Wait.Provision.{phase_outcome, provisioned}

abbrev pub access_point_phases : List String
access_point_phases = state_provisioning ∷ state_ready ∷ state_pending_accept ∷ state_created ∷ []

unfoldable pub access_point_outcome : String → Resource → Outcome
access_point_outcome id r =
    if one_of r.phase access_point_phases
    then found r.phase
    else if str_eq r.phase state_failed
    then failed state_failed (status_is id state_failed (some r.detail))
    else if str_eq r.phase state_error
    then failed state_error (status_is id state_error (some r.detail))
    else if str_eq r.phase state_disconnected
    then failed state_disconnected (status_is id state_disconnected (some r.detail))
    else failed state_unexpected (unexpected_state id r.phase (some r.detail))

unfoldable pub access_point_provision_status : Get → String → String → Outcome
unfolding access_point_outcome
access_point_provision_status get environment_id access_point_id =
    on_success (get environment_id access_point_id) state_unknown
      (access_point_outcome access_point_id)

abbrev pub gateway_phases : List String
gateway_phases = state_provisioning ∷ state_ready ∷ state_created ∷ []

unfoldable pub gateway_outcome : String → Resource → Outcome
gateway_outcome id r =
    if one_of r.phase gateway_phases
    then found r.phase
    else if str_eq r.phase state_failed
    then failed state_failed (status_is id state_failed (some r.detail))
    else if str_eq r.phase state_expired
    then failed state_expired (status_is id state_expired (some r.detail))
    else if str_eq r.phase state_error
    then failed state_error (status_is id state_error (some r.detail))
    else if str_eq r.phase state_disconnected
    then failed state_disconnected (status_is id state_disconnected (some r.detail))
    else failed state_unexpected (unexpected_state id r.phase (some r.detail))

unfoldable pub gateway_provision_status : Get → String → String → Outcome
unfolding gateway_outcome
gateway_provision_status get environment_id gateway_id =
    on_success (get environment_id gateway_id) state_unknown (gateway_outcome gateway_id)

-- A connector is read by its name, its environment and its cluster.
abbrev pub GetConnector : Type 0
GetConnector = (display_name environment_id cluster_id : String) → Call Resource

connector_outcome : String → Resource → Outcome
connector_outcome display_name r =
    if one_of r.phase (state_provisioning ∷ state_degraded ∷ state_running ∷ [])
    then found r.phase
    else failed state_failed (status_is display_name r.phase (some r.detail))

unfoldable pub connector_provision_status : GetConnector → String → String → String → Outcome
unfolding connector_outcome
connector_provision_status get display_name environment_id cluster_id =
    on_success (get display_name environment_id cluster_id) state_unknown
      (connector_outcome display_name)

unfoldable pub connector_update_status : GetConnector → String → String → String → Outcome
connector_update_status get display_name environment_id cluster_id =
    on_success (get display_name environment_id cluster_id) state_unknown (λ r. found r.phase)

-- The phase of a mirror topic is its `mirror_status`.
unfoldable pub kafka_mirror_topic_update_status :
    ((cluster_id link_name mirror_topic_name : String) → Call Resource)
    → String
    → String
    → String
    → Outcome
kafka_mirror_topic_update_status get cluster_id link_name mirror_topic_name =
    on_success (get cluster_id link_name mirror_topic_name) state_unknown (λ r. found r.phase)

-- `Status.GetCku()` and `Spec.Config.CmkV2Dedicated.Cku`.
pub record DedicatedCluster : Type 0 where
  pub status_cku : ℕ
  pub spec_cku : ℕ

cku_outcome : ℕ → DedicatedCluster → Outcome
cku_outcome desired_cku cluster =
    if cluster.status_cku == cluster.spec_cku && cluster.status_cku == desired_cku
    then found state_done
    else found state_in_progress

unfoldable pub kafka_cluster_cku_update_status :
    ((environment_id cluster_id : String) → Call DedicatedCluster) → String → String → ℕ → Outcome
unfolding cku_outcome
kafka_cluster_cku_update_status get environment_id cluster_id desired_cku =
    on_success (get environment_id cluster_id) state_unknown (cku_outcome desired_cku)

-- `loadSchemaRegistryClusters`: the clusters of an environment, or the text of an error.
pub data Loaded : Type 0 where
  clusters : List (String × Resource) → Loaded
  load_error : String → Loaded

-- `strings.ToLower` on ASCII.
unfoldable pub to_lower : List ℕ → List ℕ
to_lower s = map (λ c. if leb b'A' c && leb c b'Z' then c + 32 else c) s

abbrev pub gov_cloud_not_available_error_message : String
gov_cloud_not_available_error_message =
    "this service is not available in confluent cloud for government"

abbrev is_gov_cloud_not_available : String → Bool
unfolding contains to_lower
is_gov_cloud_not_available error =
    contains (to_lower (codes error)) (codes gov_cloud_not_available_error_message)

unfoldable pub any_schema_registry_cluster_provision_status : (String → Loaded) → String → Outcome
unfolding phase_outcome contains to_lower
any_schema_registry_cluster_provision_status load environment_id = elim (load environment_id) [
  | load_error error ↦
      if is_gov_cloud_not_available error
      then found state_provisioned
      else failed state_unknown (text error)
  | clusters [] ↦ found state_provisioning
  | clusters ((cluster_id, cluster) ∷ _) ↦ phase_outcome provisioned cluster_id (λ _. none) cluster
]
