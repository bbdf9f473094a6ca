-- ===== src/Wait/Mistaken.antt =====
-- Deletions that are reported as finished although nothing says so: a forbidden response whose body
-- the log has read, and the arguments of `plattcDeleteStatus`.
use terraform_provider_confl.Base.{
  ℕ, ◌+◌, ◌*◌, ◌<◌, ◌≡◌, ◌∙◌, Bool, true, false, Option, none, some, List, String, arith,
}
use terraform_provider_confl.Http.{Response, status_forbidden}
use terraform_provider_confl.Http.Descriptive.{ApiError, detail_of}
use terraform_provider_confl.Http.NotFound.{not_found-described_without_detail}
use terraform_provider_confl.Wait.{Get, found}
use terraform_provider_confl.Wait.States.{state_done}
use terraform_provider_confl.Wait.Deletion.{plattc_delete_status}
use terraform_provider_confl.Wait.Sdk.{Waiter}
use terraform_provider_confl.Wait.Waiters.{
  minute, get_delay_and_poll_interval, networking_api_delete_timeout, poll_interval-pos,
}
use terraform_provider_confl.Wait.Waiters.Deleting.{
  wait_for_private_link_attachment_connection_to_be_deleted,
}
use terraform_provider_confl.Wait.Deleted
use terraform_provider_confl.Wait.Deleted.{Kind, Gone, failed_read-done}
use native.Mathlib.Nat.{add-zero}

first_within_timeout :
    (is_test : Bool) (t : ℕ)
    → minute < t
    → (get_delay_and_poll_interval minute minute is_test).0
        + 0 * (get_delay_and_poll_interval minute minute is_test).1
      < t
unfolding get_delay_and_poll_interval
first_within_timeout true t h = omega arith
first_within_timeout false t h = omega arith

timeout-long : (k : Kind) → minute < Deleted.timeout k
timeout-long Kind.kafka_cluster = omega arith
timeout-long _ = omega arith

plattc-Gone :
    (gunzip : List ℕ → Option (List ℕ)) (get : Get) (environment_id id : String)
    → Gone gunzip (get id environment_id)
    → plattc_delete_status gunzip get environment_id id ≡ found state_done
unfolding plattc_delete_status
plattc-Gone gunzip get environment_id id (e, bad, gone) =
    rw bad (failed_read-done gunzip e (get id environment_id).resp gone)

module _ (gunzip : List ℕ → Option (List ℕ)) (w : Waiter) (is_test : Bool) (polls : ℕ → Get)
    (environment_id id : String) where
  -- If the first poll is forbidden, for an invalid API key or for another reason, and the model of
  -- its error has no detail, then the wait for the deletion ends without an error.
  pub forbidden_ends_wait :
      (k : Kind) (e : ApiError) (r : Response)
      → (polls 0 environment_id id).err ≡ some e
      → (polls 0 environment_id id).resp ≡ some r
      → r.status_code ≡ status_forbidden
      → detail_of e.model ≡ none
      → Deleted.wait_for k gunzip w is_test polls environment_id id ≡ none
  forbidden_ends_wait k e r bad there code bare =
      Deleted.deletion-waits gunzip k w is_test polls environment_id id 0 (λ m l. elim l [ ])
        (e, bad, rw there (not_found-described_without_detail gunzip e r bare ∙ rw code))
        (first_within_timeout is_test (Deleted.timeout k) (timeout-long k))

  -- The wait for the deletion of a private link attachment connection ends without an error as soon
  -- as the first poll finds no connection that has the environment's id in an environment that has
  -- the connection's id. What is read of the connection itself does not matter.
  pub plattc_wait_swapped :
      Gone gunzip (polls 0 id environment_id)
      → wait_for_private_link_attachment_connection_to_be_deleted gunzip w is_test polls
          environment_id id
        ≡ none
  unfolding wait_for_private_link_attachment_connection_to_be_deleted
  plattc_wait_swapped gone =
      w.waits _ 0 (λ m l. elim l [ ])
        (rw (plattc-Gone gunzip (polls 0) environment_id id gone), λ i l. elim l [ ])
        (poll_interval-pos minute minute is_test (omega arith))
        (rw add-zero (first_within_timeout is_test networking_api_delete_timeout (omega arith)))
