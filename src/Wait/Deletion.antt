-- ===== src/Wait/Deletion.antt =====
-- utils_wait.go: the refresh functions that wait for a resource to be gone.
use terraform_provider_confl.Base.{ℕ, Option, none, some, List, String, if◌then◌else◌}
use terraform_provider_confl.Http.{
  Response, status_not_found, response_has_expected_status_code,
  is_non_kafka_rest_api_resource_not_found,
}
use terraform_provider_confl.Http.Descriptive.{ApiError, create_descriptive_error}
use terraform_provider_confl.Wait.{Call, Get, api, Outcome, panicked, found, failed}
use terraform_provider_confl.Wait.States.{state_done, state_failed, state_in_progress}
use terraform_provider_confl.Wait.Provision.{execute_plattc_read}
use terraform_provider_confl.Wait.Flink.{GetStatement, GetTable}

-- `resp.StatusCode` in the text of a log line.
abbrev log_status_code : Option Response → Outcome → Outcome
log_status_code none outcome = panicked
log_status_code (some r) outcome = outcome

-- Kafka REST API: the resource is gone with the status 404.
kafka_rest_delete_outcome : Call (Unit {0}) → Outcome
kafka_rest_delete_outcome call = elim call.err [
  | some e ↦
      if response_has_expected_status_code call.resp status_not_found
      then found state_done
      else failed state_failed (api e)
  | none ↦ found state_in_progress
]

unfoldable pub kafka_topic_delete_status :
    ((cluster_id topic_name : String) → Call (Unit {0})) → String → String → Outcome
unfolding kafka_rest_delete_outcome
kafka_topic_delete_status get cluster_id topic_name =
    kafka_rest_delete_outcome (get cluster_id topic_name)

unfoldable pub kafka_mirror_topic_delete_status :
    ((cluster_id link_name mirror_topic_name : String) → Call (Unit {0}))
    → String
    → String
    → String
    → Outcome
unfolding kafka_rest_delete_outcome
kafka_mirror_topic_delete_status get cluster_id link_name mirror_topic_name =
    kafka_rest_delete_outcome (get cluster_id link_name mirror_topic_name)

unfoldable pub cluster_link_delete_status :
    ((cluster_id link_name : String) → Call (Unit {0})) → String → String → Outcome
unfolding kafka_rest_delete_outcome
cluster_link_delete_status get cluster_id link_name =
    kafka_rest_delete_outcome (get cluster_id link_name)

module _ (gunzip : List ℕ → Option (List ℕ)) where
  -- A failed read is described for the log first, and the response as that leaves it is tested.
  unfoldable pub failed_read_outcome : ApiError → Option Response → Outcome
  failed_read_outcome e resp =
      if is_non_kafka_rest_api_resource_not_found (create_descriptive_error gunzip e resp).1
      then found state_done
      else failed state_failed (api e)

  delete_outcome : {A : Type 0} → Call A → Outcome
  unfolding failed_read_outcome
  delete_outcome call = elim call.err [
    | some e ↦ failed_read_outcome e call.resp
    | none ↦ found state_in_progress
  ]

  -- With the status code in the log line of a successful read.
  logged_delete_outcome : {A : Type 0} → Call A → Outcome
  unfolding failed_read_outcome
  logged_delete_outcome call = elim call.err [
    | some e ↦ failed_read_outcome e call.resp
    | none ↦ log_status_code call.resp (found state_in_progress)
  ]

  unfoldable pub kafka_cluster_delete_status : Get → String → String → Outcome
  unfolding delete_outcome
  kafka_cluster_delete_status get environment_id cluster_id =
      delete_outcome (get environment_id cluster_id)

  unfoldable pub flink_materialized_table_delete_status :
      GetTable → String → String → String → String → Outcome
  unfolding delete_outcome
  flink_materialized_table_delete_status get org_id environment_id kafka_id table_name =
      delete_outcome (get org_id environment_id kafka_id table_name)

  unfoldable pub flink_statement_delete_status : GetStatement → String → Outcome
  unfolding logged_delete_outcome
  flink_statement_delete_status get statement_name = logged_delete_outcome (get statement_name)

  -- `executePlattcRead(…, environmentId, plattcId)`: the arguments as the source passes them.
  unfoldable pub plattc_delete_status : Get → String → String → Outcome
  unfolding logged_delete_outcome execute_plattc_read
  plattc_delete_status get environment_id plattc_id =
      logged_delete_outcome (execute_plattc_read get environment_id plattc_id)

  unfoldable pub dns_record_delete_status : Get → String → String → Outcome
  unfolding logged_delete_outcome
  dns_record_delete_status get environment_id dns_record_id =
      logged_delete_outcome (get environment_id dns_record_id)

  unfoldable pub access_point_delete_status : Get → String → String → Outcome
  unfolding logged_delete_outcome
  access_point_delete_status get environment_id access_point_id =
      logged_delete_outcome (get environment_id access_point_id)

  unfoldable pub private_link_access_delete_status : Get → String → String → Outcome
  unfolding logged_delete_outcome
  private_link_access_delete_status get environment_id private_link_access_id =
      logged_delete_outcome (get environment_id private_link_access_id)

  unfoldable pub peering_delete_status : Get → String → String → Outcome
  unfolding logged_delete_outcome
  peering_delete_status get environment_id peering_id =
      logged_delete_outcome (get environment_id peering_id)

  unfoldable pub transit_gateway_attachment_delete_status : Get → String → String → Outcome
  unfolding logged_delete_outcome
  transit_gateway_attachment_delete_status get environment_id attachment_id =
      logged_delete_outcome (get environment_id attachment_id)
