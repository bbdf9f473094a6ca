-- ===== src/Wait/Deleted.antt =====
-- Waiting for a resource to be gone, over the functions of Waiters.Deleting that poll one resource of
-- one environment.
use terraform_provider_confl.Base.{
  ℕ, ◌+◌, ◌*◌, ◌<◌, ◌≡◌, ◌≢◌, refl, sym, ◌∙◌, Bool, true, false, Option, none, some, List, [], ◌∷◌,
  String, arith, Bool-cases, Option-cases, inl, inr,
}
use native.Mathlib.Nat.{add-zero}
use mathlib.Core.Bool.{false≢true}
use terraform_provider_confl.Http.{Response, is_non_kafka_rest_api_resource_not_found}
use terraform_provider_confl.Http.Descriptive.{ApiError, create_descriptive_error}
use terraform_provider_confl.Wait.{Call, Resource, Get, Err, api, Outcome, found, failed}
use terraform_provider_confl.Wait.States.{state_in_progress, state_done}
use terraform_provider_confl.Wait.Deletion.{
  failed_read_outcome, kafka_cluster_delete_status, dns_record_delete_status,
  access_point_delete_status, private_link_access_delete_status, peering_delete_status,
  transit_gateway_attachment_delete_status,
}
use terraform_provider_confl.Wait.Sdk.{StateChangeConf, in_target, in_pending, MetAt, Waiter}
use terraform_provider_confl.Wait.Waiters.{
  minute, get_delay_and_poll_interval, networking_api_delete_timeout, state_change_conf,
  poll_interval-pos,
}
use terraform_provider_confl.Wait.Waiters.Deleting.{
  Deleter, wait_for_kafka_cluster_to_be_deleted, wait_for_dns_record_to_be_deleted,
  wait_for_access_point_to_be_deleted, wait_for_private_link_access_to_be_deleted,
  wait_for_peering_to_be_deleted, wait_for_transit_gateway_attachment_to_be_deleted,
}

pub data Kind : Type 0 where
  kafka_cluster dns_record access_point private_link_access peering transit_gateway_attachment :
      Kind

abbrev pub wait_for : Kind → Deleter
wait_for kafka_cluster = wait_for_kafka_cluster_to_be_deleted
wait_for dns_record = wait_for_dns_record_to_be_deleted
wait_for access_point = wait_for_access_point_to_be_deleted
wait_for private_link_access = wait_for_private_link_access_to_be_deleted
wait_for peering = wait_for_peering_to_be_deleted
wait_for transit_gateway_attachment = wait_for_transit_gateway_attachment_to_be_deleted

abbrev pub timeout : Kind → ℕ
timeout kafka_cluster = 30 * minute
timeout _ = networking_api_delete_timeout

abbrev status : Kind → (List ℕ → Option (List ℕ)) → Get → String → String → Outcome
status kafka_cluster = kafka_cluster_delete_status
status dns_record = dns_record_delete_status
status access_point = access_point_delete_status
status private_link_access = private_link_access_delete_status
status peering = peering_delete_status
status transit_gateway_attachment = transit_gateway_attachment_delete_status

-- The call has succeeded, with a response.
abbrev pub Exists : Call Resource → Type 0
Exists call = (call.err ≡ none) × ((r : Response) × (call.resp ≡ some r))

module _ (gunzip : List ℕ → Option (List ℕ)) where
  -- The call has failed, and its response, as the description of the error leaves it, says that
  -- there is no such resource.
  abbrev pub Gone : Call Resource → Type 0
  Gone call =
      (e : ApiError) × (call.err ≡ some e)
      × (is_non_kafka_rest_api_resource_not_found (create_descriptive_error gunzip e call.resp).1
          ≡ true)

  -- The call has failed in another way.
  abbrev pub Broken : Call Resource → Type 0
  Broken call =
      (e : ApiError) × (call.err ≡ some e)
      × (is_non_kafka_rest_api_resource_not_found (create_descriptive_error gunzip e call.resp).1
          ≡ false)

  status-error :
      (k : Kind) (get : Get) (environment_id id : String) (e : ApiError)
      → (get environment_id id).err ≡ some e
      → status k gunzip get environment_id id
        ≡ failed_read_outcome gunzip e (get environment_id id).resp
  unfolding kafka_cluster_delete_status dns_record_delete_status access_point_delete_status
      private_link_access_delete_status peering_delete_status
      transit_gateway_attachment_delete_status
  status-error kafka_cluster get environment_id id e h = rw h
  status-error _ get environment_id id e h = rw h

  status-Exists :
      (k : Kind) (get : Get) (environment_id id : String)
      → Exists (get environment_id id)
      → status k gunzip get environment_id id ≡ found state_in_progress
  unfolding kafka_cluster_delete_status dns_record_delete_status access_point_delete_status
      private_link_access_delete_status peering_delete_status
      transit_gateway_attachment_delete_status
  status-Exists kafka_cluster get environment_id id (ok, (r, h)) = rw ok
  status-Exists _ get environment_id id (ok, (r, h)) = rw (ok, h)

  abbrev conf : Kind → Bool → (ℕ → Get) → String → String → StateChangeConf
  conf k is_test polls environment_id id =
      state_change_conf (state_in_progress ∷ []) (state_done ∷ [])
        (λ n. status k gunzip (polls n) environment_id id) (timeout k)
        (get_delay_and_poll_interval minute minute is_test)

  -- A read without an error is never reported as done.
  status-ok :
      (k : Kind) (is_test : Bool) (polls : ℕ → Get) (environment_id id : String) (n : ℕ)
      → (polls n environment_id id).err ≡ none
      → let c = conf k is_test polls environment_id id in in_target c (c.refresh n) ≡ false
  unfolding kafka_cluster_delete_status dns_record_delete_status access_point_delete_status
      private_link_access_delete_status peering_delete_status
      transit_gateway_attachment_delete_status
  status-ok kafka_cluster is_test polls environment_id id n ok = rw ok
  status-ok _ is_test polls environment_id id n ok =
      elim (Option-cases (polls n environment_id id).resp) [
        | inl missing ↦ rw (ok, missing)
        | inr (r, there) ↦ rw (ok, there)
      ]

  wait_for_lem :
      (k : Kind) (w : Waiter) (is_test : Bool) (polls : ℕ → Get) (environment_id id : String)
      → wait_for k gunzip w is_test polls environment_id id
        ≡ w.wait_for_state (conf k is_test polls environment_id id)
  unfolding wait_for_kafka_cluster_to_be_deleted wait_for_dns_record_to_be_deleted
      wait_for_access_point_to_be_deleted wait_for_private_link_access_to_be_deleted
      wait_for_peering_to_be_deleted wait_for_transit_gateway_attachment_to_be_deleted
  wait_for_lem kafka_cluster w is_test polls environment_id id = refl
  wait_for_lem _ w is_test polls environment_id id = refl

  pub failed_read-done :
      (e : ApiError) (resp : Option Response)
      → is_non_kafka_rest_api_resource_not_found (create_descriptive_error gunzip e resp).1 ≡ true
      → failed_read_outcome gunzip e resp ≡ found state_done
  unfolding failed_read_outcome
  failed_read-done e resp h = rw h

  failed_read-failed :
      (e : ApiError) (resp : Option Response)
      → is_non_kafka_rest_api_resource_not_found (create_descriptive_error gunzip e resp).1 ≡ false
      → failed_read_outcome gunzip e resp ≡ failed "FAILED" (api e)
  unfolding failed_read_outcome
  failed_read-failed e resp h = rw h

module _ (gunzip : List ℕ → Option (List ℕ)) (k : Kind) (w : Waiter) (is_test : Bool)
    (polls : ℕ → Get) (environment_id id : String) where
  abbrev configured : StateChangeConf
  configured = conf gunzip k is_test polls environment_id id

  failed_not_target :
      (o : Outcome) (e : Err) → o ≡ failed "FAILED" e → in_target configured o ≢ true
  failed_not_target o e same h = false≢true (rw same at h)

  in_target-Gone :
      (n : ℕ)
      → in_target configured (configured.refresh n) ≡ true
      → Gone gunzip (polls n environment_id id)
  in_target-Gone n h = elim (Option-cases (polls n environment_id id).err) [
    | inl ok ↦ absurd (ground (arith, status-ok gunzip k is_test polls environment_id id n ok))
    | inr (e, bad) ↦
        elim (Bool-cases (
          is_non_kafka_rest_api_resource_not_found
            (create_descriptive_error gunzip e (polls n environment_id id).resp).1)) [
              | inl gone ↦ (e, bad, gone)
              | inr other ↦
                  let same =
                    status-error gunzip k (polls n) environment_id id e bad
                    ∙ failed_read-failed gunzip e (polls n environment_id id).resp other in
                  absurd (failed_not_target _ _ same h)
            ]
  ]

  -- Without an error the resource has been read as gone.
  pub deletion-met :
      wait_for k gunzip w is_test polls environment_id id ≡ none
      → (n : ℕ) × Gone gunzip (polls n environment_id id)
  deletion-met h =
      let (n, met) =
        w.met configured (cc) (sym (wait_for_lem gunzip k w is_test polls environment_id id) ∙ h) in
      (n, in_target-Gone n met.0)

  in_pending-Exists :
      (n : ℕ)
      → Exists (polls n environment_id id)
      → in_pending configured (configured.refresh n) ≡ true
  in_pending-Exists n there = rw (status-Exists gunzip k (polls n) environment_id id there)

  MetAt-Gone : (n : ℕ) → Gone gunzip (polls n environment_id id) → MetAt configured n
  MetAt-Gone n (e, bad, gone) =
      let same =
        status-error gunzip k (polls n) environment_id id e bad
        ∙ failed_read-done gunzip e (polls n environment_id id).resp gone in
      (rw same, λ i l. elim l [ ])

  -- The resource is read until a poll within the timeout finds it gone: then there is no error.
  pub deletion-waits :
      (n : ℕ)
      → ((m : ℕ) → m < n → Exists (polls m environment_id id))
      → Gone gunzip (polls n environment_id id)
      → (get_delay_and_poll_interval minute minute is_test).0
          + n * (get_delay_and_poll_interval minute minute is_test).1
        < timeout k
      → wait_for k gunzip w is_test polls environment_id id ≡ none
  deletion-waits n before gone within =
      wait_for_lem gunzip k w is_test polls environment_id id
      ∙ w.waits configured n (λ m l. in_pending-Exists m (before m l)) (MetAt-Gone n gone)
          (poll_interval-pos minute minute is_test (omega arith)) (rw add-zero within)

  -- The resource is read until a poll fails in another way: then there is an error.
  pub deletion-refuses :
      (n : ℕ)
      → ((m : ℕ) → m < n → Exists (polls m environment_id id))
      → Broken gunzip (polls n environment_id id)
      → wait_for k gunzip w is_test polls environment_id id ≢ none
  deletion-refuses n before (e, bad, other) h =
      let same =
        status-error gunzip k (polls n) environment_id id e bad
        ∙ failed_read-failed gunzip e (polls n environment_id id).resp other in
      w.refuses configured n (λ m l. in_pending-Exists m (before m l)) (rw same)
        (sym (wait_for_lem gunzip k w is_test polls environment_id id) ∙ h)
