-- ===== src/Wait/Provisioned.antt =====
-- Waiting for a Cloud resource to be provisioned, over all the functions of Waiters.Provisioning that
-- poll one resource of one environment: what it takes for them to end without an error.
use terraform_provider_confl.Base.{
  ℕ, ◌+◌, ◌*◌, ◌<◌, ◌≡◌, ◌≢◌, refl, sym, ◌∙◌, Bool, true, false, none, List, [], ◌∷◌, String,
  one_of, str_eq, arith, eq_iff,
}
use terraform_provider_confl.Wait.{Get, Outcome}
use terraform_provider_confl.Wait.States.{
  state_unknown, state_failed, state_error, state_expired, state_disconnected, state_provisioning,
  state_provisioned, state_ready, state_created, state_pending_accept,
  state_waiting_for_connections,
}
use terraform_provider_confl.Wait.Provision.{
  no_detail, with_detail, kafka_cluster_provision_status, ksql_cluster_provision_status,
  private_link_access_provision_status, private_link_attachment_provision_status,
  private_link_attachment_connection_provision_status, network_provision_status,
  dns_record_provision_status, dns_forwarder_provision_status, compute_pool_provision_status,
  peering_provision_status, transit_gateway_attachment_provision_status,
}
use terraform_provider_confl.Wait.Special.{
  access_point_phases, access_point_outcome, gateway_phases, gateway_outcome,
  access_point_provision_status, gateway_provision_status,
}
use terraform_provider_confl.Wait.Sdk.{StateChangeConf, in_pending, MetAt, Waiter}
use terraform_provider_confl.Wait.Waiters.{
  minute, hour, get_delay_and_poll_interval, get_timeout_for, networking_api_create_timeout,
  state_change_conf, poll_interval-pos,
}
use native.Mathlib.Nat.{add-zero}
use terraform_provider_confl.Wait.Waiters.Provisioning.{
  Provisioner, wait_for_kafka_cluster_to_provision, wait_for_ksql_cluster_to_provision,
  wait_for_private_link_access_to_provision, wait_for_private_link_attachment_to_provision,
  wait_for_private_link_attachment_connection_to_provision, wait_for_network_to_provision,
  wait_for_dns_record_to_provision, wait_for_dns_forwarder_to_provision,
  wait_for_access_point_to_provision, wait_for_gateway_to_provision,
  wait_for_compute_pool_to_provision, wait_for_peering_to_provision,
  wait_for_transit_gateway_attachment_to_provision,
}
use terraform_provider_confl.Wait.Report.{
  Fails-if, Fails-failed, Reads, Misses, Report, Report-on_success, Report-phase_outcome,
  in_target-Report, found-Report, is_refused-Report,
}

-- A Kafka cluster has its type.
pub data Kind : Type 0 where
  kafka_cluster : String → Kind
  ksql_cluster private_link_access private_link_attachment private_link_attachment_connection
        network dns_record dns_forwarder access_point gateway compute_pool peering
        transit_gateway_attachment :
      Kind

abbrev pub wait_for : Kind → Provisioner
wait_for (kafka_cluster cluster_type) = wait_for_kafka_cluster_to_provision cluster_type
wait_for ksql_cluster = wait_for_ksql_cluster_to_provision
wait_for private_link_access = wait_for_private_link_access_to_provision
wait_for private_link_attachment = wait_for_private_link_attachment_to_provision
wait_for private_link_attachment_connection =
    wait_for_private_link_attachment_connection_to_provision
wait_for network = wait_for_network_to_provision
wait_for dns_record = wait_for_dns_record_to_provision
wait_for dns_forwarder = wait_for_dns_forwarder_to_provision
wait_for access_point = wait_for_access_point_to_provision
wait_for gateway = wait_for_gateway_to_provision
wait_for compute_pool = wait_for_compute_pool_to_provision
wait_for peering = wait_for_peering_to_provision
wait_for transit_gateway_attachment = wait_for_transit_gateway_attachment_to_provision

-- The phases of a resource that is provisioned.
abbrev pub target : Kind → List String
target (kafka_cluster _) = state_provisioned ∷ []
target ksql_cluster = state_provisioned ∷ []
target private_link_access = state_ready ∷ []
target private_link_attachment = state_ready ∷ state_waiting_for_connections ∷ []
target private_link_attachment_connection = state_ready ∷ []
target network = state_ready ∷ []
target dns_record = state_ready ∷ state_created ∷ []
target dns_forwarder = state_ready ∷ state_created ∷ []
target access_point = state_ready ∷ state_pending_accept ∷ state_created ∷ []
target gateway = state_ready ∷ state_created ∷ []
target compute_pool = state_provisioned ∷ []
target peering = state_ready ∷ state_pending_accept ∷ []
target transit_gateway_attachment = state_ready ∷ state_pending_accept ∷ []

abbrev pub timeout : Kind → ℕ
timeout (kafka_cluster cluster_type) = get_timeout_for cluster_type
timeout ksql_cluster = 12 * hour
timeout private_link_access = networking_api_create_timeout
timeout private_link_attachment = networking_api_create_timeout
timeout private_link_attachment_connection = networking_api_create_timeout
timeout network = networking_api_create_timeout
timeout dns_record = networking_api_create_timeout
timeout dns_forwarder = networking_api_create_timeout
timeout access_point = networking_api_create_timeout
timeout gateway = networking_api_create_timeout
timeout compute_pool = hour
timeout peering = networking_api_create_timeout
timeout transit_gateway_attachment = networking_api_create_timeout

abbrev status : Kind → Get → String → String → Outcome
status (kafka_cluster _) = kafka_cluster_provision_status
status ksql_cluster = ksql_cluster_provision_status
status private_link_access = private_link_access_provision_status
status private_link_attachment = private_link_attachment_provision_status
status private_link_attachment_connection = private_link_attachment_connection_provision_status
status network = network_provision_status
status dns_record = dns_record_provision_status
status dns_forwarder = dns_forwarder_provision_status
status access_point = access_point_provision_status
status gateway = gateway_provision_status
status compute_pool = compute_pool_provision_status
status peering = peering_provision_status
status transit_gateway_attachment = transit_gateway_attachment_provision_status

abbrev phases : Kind → List String
phases k = state_provisioning ∷ target k

status-Report :
    (k : Kind) (get : Get) (environment_id id : String)
    → Report (phases k) (get environment_id id) (status k get environment_id id)
unfolding kafka_cluster_provision_status ksql_cluster_provision_status
    private_link_access_provision_status private_link_attachment_provision_status
    private_link_attachment_connection_provision_status network_provision_status
    dns_record_provision_status dns_forwarder_provision_status access_point_provision_status
    gateway_provision_status compute_pool_provision_status peering_provision_status
    transit_gateway_attachment_provision_status
status-Report (kafka_cluster _) get e id =
    Report-phase_outcome _ (get e id) state_unknown id no_detail
status-Report ksql_cluster get e id = Report-phase_outcome _ (get e id) state_unknown id no_detail
status-Report private_link_access get e id =
    Report-phase_outcome _ (get e id) state_unknown id with_detail
status-Report private_link_attachment get e id =
    Report-phase_outcome _ (get e id) state_unknown id with_detail
status-Report private_link_attachment_connection get e id =
    Report-phase_outcome _ (get e id) state_unknown id with_detail
status-Report network get e id = Report-phase_outcome _ (get e id) state_unknown id with_detail
status-Report dns_record get e id = Report-phase_outcome _ (get e id) state_unknown id with_detail
status-Report dns_forwarder get e id =
    Report-phase_outcome _ (get e id) state_unknown id with_detail
status-Report access_point get e id =
    Report-on_success access_point_phases (get e id) state_unknown (access_point_outcome id)
      (λ hit. rw hit)
      λ miss. rw miss (
        Fails-if (str_eq (get e id).value.phase state_failed) (Fails-failed _ _) (
          Fails-if (str_eq (get e id).value.phase state_error) (Fails-failed _ _) (
            Fails-if (str_eq (get e id).value.phase state_disconnected) (Fails-failed _ _)
              (Fails-failed _ _))))
status-Report gateway get e id =
    Report-on_success gateway_phases (get e id) state_unknown (gateway_outcome id) (λ hit. rw hit)
      λ miss. rw miss (
        Fails-if (str_eq (get e id).value.phase state_failed) (Fails-failed _ _) (
          Fails-if (str_eq (get e id).value.phase state_expired) (Fails-failed _ _) (
            Fails-if (str_eq (get e id).value.phase state_error) (Fails-failed _ _) (
              Fails-if (str_eq (get e id).value.phase state_disconnected) (Fails-failed _ _)
                (Fails-failed _ _)))))
status-Report compute_pool get e id = Report-phase_outcome _ (get e id) state_unknown id no_detail
status-Report peering get e id = Report-phase_outcome _ (get e id) state_unknown id with_detail
status-Report transit_gateway_attachment get e id =
    Report-phase_outcome _ (get e id) state_unknown id with_detail

abbrev conf : Kind → Bool → (ℕ → Get) → String → String → StateChangeConf
conf k is_test polls environment_id id =
    state_change_conf (state_provisioning ∷ []) (target k)
      (λ n. status k (polls n) environment_id id) (timeout k)
      (get_delay_and_poll_interval 5 minute is_test)

wait_for_lem :
    (k : Kind) (w : Waiter) (is_test : Bool) (polls : ℕ → Get) (environment_id id : String)
    → wait_for k w is_test polls environment_id id
      ≡ w.wait_for_state (conf k is_test polls environment_id id)
unfolding wait_for_kafka_cluster_to_provision wait_for_ksql_cluster_to_provision
    wait_for_private_link_access_to_provision wait_for_private_link_attachment_to_provision
    wait_for_private_link_attachment_connection_to_provision wait_for_network_to_provision
    wait_for_dns_record_to_provision wait_for_dns_forwarder_to_provision
    wait_for_access_point_to_provision wait_for_gateway_to_provision
    wait_for_compute_pool_to_provision wait_for_peering_to_provision
    wait_for_transit_gateway_attachment_to_provision
wait_for_lem (kafka_cluster _) w is_test polls environment_id id = refl
wait_for_lem _ w is_test polls environment_id id = refl

target-ne-nil : (k : Kind) → target k ≢ []
target-ne-nil (kafka_cluster _) = cc
target-ne-nil _ = cc

is_provisioning : (s : String) → one_of s (state_provisioning ∷ []) ≡ true → s ≡ state_provisioning
is_provisioning s h = ground (arith, eq_iff s state_provisioning)

provisioning_not_target : (k : Kind) → one_of state_provisioning (target k) ≡ false
provisioning_not_target (kafka_cluster _) = refl
provisioning_not_target _ = refl

module _ (k : Kind) (w : Waiter) (is_test : Bool) (polls : ℕ → Get)
    (environment_id id : String) where
  -- Without an error the resource has been read with a phase of the target.
  pub provision-met :
      wait_for k w is_test polls environment_id id ≡ none
      → (n : ℕ) × Reads (target k) (polls n environment_id id)
  provision-met h =
      let (n, met) =
        w.met (conf k is_test polls environment_id id) (target-ne-nil k)
          (sym (wait_for_lem k w is_test polls environment_id id) ∙ h) in
      (
        n,
        in_target-Report (conf k is_test polls environment_id id)
            (status-Report k (polls n) environment_id id) met.0,
      )

  pending_at :
      (n : ℕ)
      → Reads (state_provisioning ∷ []) (polls n environment_id id)
      → let c = conf k is_test polls environment_id id in in_pending c (c.refresh n) ≡ true
  pending_at n (ok, hit) =
      let c = conf k is_test polls environment_id id in
      let call = polls n environment_id id in
      let same = is_provisioning call.value.phase hit in
      rw (found-Report c (status-Report k (polls n) environment_id id) (ok, rw same))
        (rw (same, provisioning_not_target k))

  target_at :
      (n : ℕ)
      → Reads (target k) (polls n environment_id id)
      → let c = conf k is_test polls environment_id id in MetAt c n
  target_at n (ok, hit) =
      let c = conf k is_test polls environment_id id in
      let call = polls n environment_id id in
      let all : one_of call.value.phase (phases k) ≡ true = ground arith in
      (
        rw (found-Report c (status-Report k (polls n) environment_id id) (ok, all)) hit,
        λ i l. elim l [ ],
      )

  -- While the polls before the n-th read PROVISIONING, and the n-th reads a phase of the target and
  -- comes within the timeout, there is no error.
  pub provision-waits :
      (n : ℕ)
      → ((m : ℕ) → m < n → Reads (state_provisioning ∷ []) (polls m environment_id id))
      → Reads (target k) (polls n environment_id id)
      → (get_delay_and_poll_interval 5 minute is_test).0
          + n * (get_delay_and_poll_interval 5 minute is_test).1
        < timeout k
      → wait_for k w is_test polls environment_id id ≡ none
  provision-waits n before reads within =
      let c = conf k is_test polls environment_id id in
      wait_for_lem k w is_test polls environment_id id
      ∙ w.waits c n (λ m l. pending_at m (before m l)) (target_at n reads)
          (poll_interval-pos 5 minute is_test (omega arith)) (rw add-zero within)

  -- A failed call, or a phase that is neither PROVISIONING nor of the target, is an error, if the
  -- polls before it read PROVISIONING.
  pub provision-refuses :
      (n : ℕ)
      → ((m : ℕ) → m < n → Reads (state_provisioning ∷ []) (polls m environment_id id))
      → Misses (state_provisioning ∷ target k) (polls n environment_id id)
      → wait_for k w is_test polls environment_id id ≢ none
  provision-refuses n before misses h =
      let c = conf k is_test polls environment_id id in
      w.refuses c n (λ m l. pending_at m (before m l))
        (is_refused-Report c (status-Report k (polls n) environment_id id) misses)
        (sym (wait_for_lem k w is_test polls environment_id id) ∙ h)
