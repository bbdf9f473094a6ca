-- ===== src/Wait/Tests.antt =====
-- The theorems on waiting, at concrete runs.
use terraform_provider_confl.Base.{
  ℕ, zero, suc, ◌<◌, ◌≡◌, ◌≢◌, ◌↔◌, refl, true, false, Option, none, some, List, [], ◌∷◌, String,
  arith, inr, ltb, str_eq, codes, ◌&&◌, if◌then◌else◌,
}
use terraform_provider_confl.Http.{
  is_non_kafka_rest_api_resource_not_found, Response, buffer, network as open_body,
}
use terraform_provider_confl.Http.Descriptive.{create_descriptive_error, ApiError, detail_of}
use terraform_provider_confl.Wait.Unanswered
use terraform_provider_confl.Wait.Resumed
use terraform_provider_confl.Wait.Waiters.Flinks.{wait_for_flink_statement_to_be_updated}
use terraform_provider_confl.Wait.{panicked, Call, Resource, Get}
use terraform_provider_confl.Wait.States.{state_provisioning}
use terraform_provider_confl.Wait.Provision.{network_provision_status}
use terraform_provider_confl.Wait.PollLoop.{poll_waiter, poll}
use terraform_provider_confl.Wait.Report.{Reads}
use terraform_provider_confl.Wait.Provisioned
use terraform_provider_confl.Wait.Deleted
use terraform_provider_confl.Wait.Mistaken
use terraform_provider_confl.Wait.Waiters.{get_delay_and_poll_interval}
use terraform_provider_confl.Wait.Deletion.{peering_delete_status}
use terraform_provider_confl.Wait.Waiters.Provisioning.{wait_for_network_to_provision}
use terraform_provider_confl.Wait.Waiters.Deleting.{
  wait_for_private_link_attachment_connection_to_be_deleted, wait_for_peering_to_be_deleted,
}

abbrev ok_response : Response
ok_response = record { status_code = 200; body = open_body [] }

abbrev answered : String → Call Resource
answered phase = record {
  value = record { phase = phase; detail = "" };
  resp = some ok_response;
  err = none;
}

-- Two polls read PROVISIONING.
abbrev slow_network : ℕ → Get
slow_network n environment_id id = answered (if ltb n 2 then "PROVISIONING" else "READY")

slow_before : (m : ℕ) → m < 2 → Reads (state_provisioning ∷ []) (slow_network m "env-1" "n-1")
slow_before zero h = (refl, refl)
slow_before (suc zero) h = (refl, refl)
slow_before (suc (suc m)) h = absurd (omega arith)

provisioned_met_example :
    (n : ℕ) × Reads (Provisioned.target Provisioned.Kind.network) (slow_network n "env-1" "n-1")
unfolding wait_for_network_to_provision network_provision_status poll
provisioned_met_example =
    Provisioned.provision-met Provisioned.Kind.network poll_waiter true slow_network "env-1" "n-1"
      refl

provisioned_waits_example :
    Provisioned.wait_for Provisioned.Kind.network poll_waiter false slow_network "env-1" "n-1"
    ≡ none
provisioned_waits_example =
    Provisioned.provision-waits Provisioned.Kind.network poll_waiter false slow_network "env-1"
      "n-1" 2 slow_before (refl, refl) (unfold wait_for_network_to_provision in omega arith)

-- After two polls the network has failed.
abbrev failing_network : ℕ → Get
failing_network n environment_id id = answered (if ltb n 2 then "PROVISIONING" else "FAILED")

failing_before : (m : ℕ) → m < 2 → Reads (state_provisioning ∷ []) (failing_network m "env-1" "n-1")
failing_before zero h = (refl, refl)
failing_before (suc zero) h = (refl, refl)
failing_before (suc (suc m)) h = absurd (omega arith)

provisioned_refuses_example :
    Provisioned.wait_for Provisioned.Kind.network poll_waiter false failing_network "env-1" "n-1"
    ≢ none
provisioned_refuses_example =
    Provisioned.provision-refuses Provisioned.Kind.network poll_waiter false failing_network "env-1"
      "n-1" 2 failing_before (inr refl)

-- An error whose model is nil.
abbrev bare : String → ApiError
bare text = record { text = text; model = some none }

abbrev denied : ℕ → String → Call Resource
denied code body = record {
  value = record { phase = ""; detail = "" };
  resp = some (record { status_code = code; body = buffer (codes body) });
  err = some (bare "refused");
}

abbrev no_gzip : List ℕ → Option (List ℕ)
no_gzip bytes = none

-- The peering is there at the first poll and gone at the second.
abbrev leaving : ℕ → Get
leaving zero environment_id id = answered "READY"
leaving (suc n) environment_id id = denied 404 "not found"

leaving_before : (m : ℕ) → m < 1 → Deleted.Exists (leaving m "env-1" "peer-1")
leaving_before zero h = (refl, (ok_response, refl))
leaving_before (suc m) h = absurd (omega arith)

leaving-Gone : Deleted.Gone no_gzip (leaving 1 "env-1" "peer-1")
unfolding create_descriptive_error is_non_kafka_rest_api_resource_not_found
leaving-Gone = (bare "refused", refl, refl)

deleted_waits_example :
    Deleted.wait_for Deleted.Kind.peering no_gzip poll_waiter false leaving "env-1" "peer-1" ≡ none
deleted_waits_example =
    Deleted.deletion-waits no_gzip Deleted.Kind.peering poll_waiter false leaving "env-1" "peer-1" 1
      leaving_before leaving-Gone (unfold get_delay_and_poll_interval in omega arith)

deleted_met_example : (n : ℕ) × Deleted.Gone no_gzip (leaving n "env-1" "peer-1")
unfolding wait_for_peering_to_be_deleted peering_delete_status poll
deleted_met_example =
    Deleted.deletion-met no_gzip Deleted.Kind.peering poll_waiter false leaving "env-1" "peer-1"
      deleted_waits_example

-- The second poll meets a fault of the server.
abbrev faulty : ℕ → Get
faulty zero environment_id id = answered "READY"
faulty (suc n) environment_id id = denied 500 "internal error"

faulty_before : (m : ℕ) → m < 1 → Deleted.Exists (faulty m "env-1" "peer-1")
faulty_before zero h = (refl, (ok_response, refl))
faulty_before (suc m) h = absurd (omega arith)

faulty-Broken : Deleted.Broken no_gzip (faulty 1 "env-1" "peer-1")
unfolding create_descriptive_error is_non_kafka_rest_api_resource_not_found
faulty-Broken = (bare "refused", refl, refl)

deleted_refuses_example :
    Deleted.wait_for Deleted.Kind.peering no_gzip poll_waiter false faulty "env-1" "peer-1" ≢ none
deleted_refuses_example =
    Deleted.deletion-refuses no_gzip Deleted.Kind.peering poll_waiter false faulty "env-1" "peer-1"
      1 faulty_before faulty-Broken

-- Every read is refused for an invalid API key.
abbrev unauthorised : ℕ → Get
unauthorised n environment_id id = denied 403 "invalid API key"

forbidden_ends_wait_example :
    Deleted.wait_for Deleted.Kind.peering no_gzip poll_waiter false unauthorised "env-1" "peer-1"
    ≡ none
unfolding detail_of
forbidden_ends_wait_example =
    Mistaken.forbidden_ends_wait no_gzip poll_waiter false unauthorised "env-1" "peer-1"
      Deleted.Kind.peering (bare "refused")
      (record { status_code = 403; body = buffer (codes "invalid API key") }) refl refl refl refl

-- The connection `plattc-1` of the environment `env-1` is there at every poll.
abbrev one_connection : ℕ → Get
one_connection n environment_id id =
    if str_eq environment_id "env-1" && str_eq id "plattc-1"
    then answered "READY"
    else denied 404 "not found"

swapped-Gone : Deleted.Gone no_gzip (one_connection 0 "plattc-1" "env-1")
unfolding create_descriptive_error is_non_kafka_rest_api_resource_not_found
swapped-Gone = (bare "refused", refl, refl)

plattc_wait_swapped_example :
    wait_for_private_link_attachment_connection_to_be_deleted no_gzip poll_waiter false
      one_connection "env-1" "plattc-1"
    ≡ none
plattc_wait_swapped_example =
    Mistaken.plattc_wait_swapped no_gzip poll_waiter false one_connection "env-1" "plattc-1"
      swapped-Gone

one_connection-Exists : (n : ℕ) → Deleted.Exists (one_connection n "env-1" "plattc-1")
one_connection-Exists n = (refl, (ok_response, refl))

-- The call for a tag has failed before there was a response.
abbrev unreachable : String → Call (Unit {0})
unreachable name = record {
  value = tt;
  resp = none;
  err = some (record { text = "connection refused"; model = none });
}

tag_unreachable_example :
    (Unanswered.status (Unanswered.Refresh.tag unreachable "pii") ≡ panicked)
    ↔ Unanswered.Unanswered (Unanswered.Refresh.tag unreachable "pii")
tag_unreachable_example = Unanswered.status-panics_iff (Unanswered.Refresh.tag unreachable "pii")

-- A statement that is still stopping at the second poll after it has been asked to resume.
abbrev restless : ℕ → String → Call Resource
restless n name = answered (if ltb n 1 then "STOPPED" else "STOPPING")

restless_before : (m : ℕ) → m < 1 → Resumed.InPhase "STOPPED" (restless m "statement-1")
restless_before zero h = (refl, refl)
restless_before (suc m) h = absurd (omega arith)

resume_refused_example :
    wait_for_flink_statement_to_be_updated poll_waiter true restless "statement-1" false ≢ none
resume_refused_example =
    Resumed.resume-refuses_stopping poll_waiter true restless "statement-1" 1 restless_before
      (refl, refl)
