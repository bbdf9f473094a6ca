-- ===== src/Http/NotFound.antt =====
-- When a failed read counts as "the resource does not exist", before and after the error has been
-- described for the log.
use terraform_provider_confl.Base.{
  ℕ, ◌≡◌, ◌≢◌, refl, ◌||◌, Option, none, some, List, String, arith, ◌==◌,
}
use terraform_provider_confl.Http.{
  Body, buffer, network, broken, Response, read_all, close, status_forbidden, status_not_found,
  response_has_status_forbidden_due_to_invalid_api_key, is_non_kafka_rest_api_resource_not_found,
}
use terraform_provider_confl.Http.Descriptive.{ApiError, create_descriptive_error, detail_of}

abbrev pub NotBroken : Response → Type 0
NotBroken response = response.body ≢ broken

abbrev of : ℕ → Body → Option Response
of code body = some (record { status_code = code; body = body })

idempotent_at :
    (code : ℕ) (body : Body)
    → response_has_status_forbidden_due_to_invalid_api_key
        (response_has_status_forbidden_due_to_invalid_api_key (of code body)).1
      ≡ response_has_status_forbidden_due_to_invalid_api_key (of code body)
unfolding response_has_status_forbidden_due_to_invalid_api_key
idempotent_at code (buffer bytes) = ground arith
idempotent_at code (network bytes) = ground arith
idempotent_at code broken = ground arith

-- Asking whether a response is forbidden for an invalid API key leaves the response such that
-- asking again gives the same answer and the same response.
forbidden_due_to_invalid_api_key_idempotent :
    (response : Option Response)
    → response_has_status_forbidden_due_to_invalid_api_key
        (response_has_status_forbidden_due_to_invalid_api_key response).1
      ≡ response_has_status_forbidden_due_to_invalid_api_key response
unfolding response_has_status_forbidden_due_to_invalid_api_key
forbidden_due_to_invalid_api_key_idempotent none = refl
forbidden_due_to_invalid_api_key_idempotent (some r) = idempotent_at r.status_code r.body

module _ (gunzip : List ℕ → Option (List ℕ)) (err : ApiError) where
  described_at :
      (code : ℕ) (body : Body)
      → body ≢ broken
      → (create_descriptive_error gunzip err
          (response_has_status_forbidden_due_to_invalid_api_key (of code body)).1).0
        ≡ (create_descriptive_error gunzip err (of code body)).0
  unfolding create_descriptive_error response_has_status_forbidden_due_to_invalid_api_key
  described_at code (buffer bytes) h = ground arith
  described_at code (network bytes) h = ground arith
  described_at code broken h = absurd (h refl)

  -- The error is described as it would have been, had nobody asked before whether the response is
  -- forbidden for an invalid API key, if the body can be read.
  create_descriptive_error-forbidden :
      (response : Response)
      → NotBroken response
      → (create_descriptive_error gunzip err
          (response_has_status_forbidden_due_to_invalid_api_key (some response)).1).0
        ≡ (create_descriptive_error gunzip err (some response)).0
  create_descriptive_error-forbidden response h = described_at response.status_code response.body h

  -- A detail in the model of the error keeps the response as it was, so the test for a missing
  -- resource that follows is not changed.
  not_found-described_with_detail :
      (response : Option Response) {detail : String}
      → detail_of err.model ≡ some detail
      → is_non_kafka_rest_api_resource_not_found (create_descriptive_error gunzip err response).1
        ≡ is_non_kafka_rest_api_resource_not_found response
  unfolding create_descriptive_error
  not_found-described_with_detail response h = rw (h, create_descriptive_error)

  drained_at :
      (code : ℕ) (body : Body)
      → is_non_kafka_rest_api_resource_not_found (of code (close (read_all body).1))
        ≡ (code == status_not_found || code == status_forbidden)
  unfolding is_non_kafka_rest_api_resource_not_found close read_all
  drained_at code (buffer bytes) = ground arith
  drained_at code (network bytes) = ground arith
  drained_at code broken = ground arith

  -- With no detail in the model of the error the description drains the body: each forbidden
  -- response then counts as a missing resource, an invalid API key or not.
  pub not_found-described_without_detail :
      (response : Response)
      → detail_of err.model ≡ none
      → is_non_kafka_rest_api_resource_not_found
          (create_descriptive_error gunzip err (some response)).1
        ≡ (response.status_code == status_not_found || response.status_code == status_forbidden)
  unfolding create_descriptive_error
  not_found-described_without_detail response h =
      rw (h, create_descriptive_error) (drained_at response.status_code response.body)
