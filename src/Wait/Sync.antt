-- ===== src/Wait/Sync.antt =====
-- utils_wait.go: the refresh functions that wait for an API key to be accepted.
use terraform_provider_confl.Base.{ℕ, Bool, ◌||◌, Option, none, some, String, ◌==◌, if◌then◌else◌}
use terraform_provider_confl.Http.{
  Response, status_ok, status_bad_request, status_unauthorized, status_forbidden, status_not_found,
}
use terraform_provider_confl.Http.Descriptive.{ApiError}
use terraform_provider_confl.Wait.{api, unexpected_status_code, Outcome, panicked, found, failed}
use terraform_provider_confl.Wait.States.{
  state_done, state_failed, state_in_progress, state_unexpected,
}

-- What a list call made with the key answers. The functions look at the response first.
pub record Listed : Type 0 where
  pub resp : Option Response
  pub err : Option ApiError

-- The last two branches: an error is passed on in a text with the key; without one the status code
-- is put into the text, whether there is a response or not.
neither_done_nor_pending : String → Listed → Outcome
neither_done_nor_pending key call = elim call.err [
  | some e ↦ failed state_failed (api e)
  | none ↦ elim call.resp [
    | none ↦ panicked
    | some r ↦ failed state_unexpected (unexpected_status_code key r.status_code)
  ]
]

sync_outcome : (pending : ℕ → Bool) → String → Listed → Outcome
unfolding neither_done_nor_pending
sync_outcome pending key call = elim call.resp [
  | none ↦ neither_done_nor_pending key call
  | some r ↦
      if r.status_code == status_ok
      then found state_done
      else if pending r.status_code
      then found state_in_progress
      else neither_done_nor_pending key call
]

abbrev is_forbidden_or_unauthorized : ℕ → Bool
is_forbidden_or_unauthorized code = code == status_forbidden || code == status_unauthorized

unfoldable pub cloud_api_key_sync_status : (String → String → Listed) → String → String → Outcome
unfolding sync_outcome
cloud_api_key_sync_status list cloud_api_key cloud_api_secret =
    sync_outcome is_forbidden_or_unauthorized cloud_api_key (list cloud_api_key cloud_api_secret)

unfoldable pub global_api_key_sync_status : (String → String → Listed) → String → String → Outcome
unfolding sync_outcome
global_api_key_sync_status list global_api_key global_api_secret =
    sync_outcome is_forbidden_or_unauthorized global_api_key (list global_api_key global_api_secret)

unfoldable pub tableflow_api_key_sync_status : Listed → String → Outcome
unfolding sync_outcome
tableflow_api_key_sync_status call tableflow_api_key =
    sync_outcome is_forbidden_or_unauthorized tableflow_api_key call

unfoldable pub kafka_api_key_sync_status : Listed → String → Outcome
unfolding sync_outcome
kafka_api_key_sync_status call cluster_api_key =
    sync_outcome is_forbidden_or_unauthorized cluster_api_key call

unfoldable pub schema_registry_api_key_sync_status : Listed → String → Outcome
unfolding sync_outcome
schema_registry_api_key_sync_status call cluster_api_key =
    sync_outcome is_forbidden_or_unauthorized cluster_api_key call

unfoldable pub flink_api_key_sync_status : Listed → String → Outcome
unfolding sync_outcome
flink_api_key_sync_status call flink_api_key =
    sync_outcome
      (λ code.
        (code == status_forbidden || code == status_unauthorized)
        || (code == status_not_found || code == status_bad_request))
      flink_api_key call
