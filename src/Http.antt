-- ===== src/Http.antt =====
-- internal/provider/utils.go: HTTP responses as the provider reads them, and its error messages.
-- A response's body is a stream that is read once; so each function that reads it returns the
-- response as it leaves it.
pub mod Descriptive
pub mod NotFound
mod Tests
use terraform_provider_confl.Base.{
  ℕ, ◌≡◌, Bool, true, false, not, ◌&&◌, ◌||◌, Option, none, some, List, [], String, ◌==◌, codes,
  contains, if◌then◌else◌,
}

-- `io.ReadCloser`: a buffer behind `io.NopCloser`, an open connection, or one that is closed or
-- broken.
pub data Body : Type 0 where
  buffer network : List ℕ → Body
  broken : Body

-- `io.ReadAll`: what was read (`none` for an error), and the drained body.
unfoldable pub read_all : Body → Option (List ℕ) × Body
read_all (buffer bytes) = (some bytes, buffer [])
read_all (network bytes) = (some bytes, network [])
read_all broken = (none, broken)

unfoldable pub close : Body → Body
close (buffer bytes) = buffer bytes
close (network bytes) = broken
close broken = broken

-- `http.Response`, with what the provider reads of it.
pub record Response : Type 0 where
  pub status_code : ℕ
  pub body : Body

abbrev pub status_ok : ℕ
status_ok = 200

abbrev pub status_bad_request : ℕ
status_bad_request = 400

abbrev pub status_unauthorized : ℕ
status_unauthorized = 401

abbrev pub status_forbidden : ℕ
status_forbidden = 403

abbrev pub status_not_found : ℕ
status_not_found = 404

unfoldable pub response_has_expected_status_code : Option Response → ℕ → Bool
response_has_expected_status_code none expected = false
response_has_expected_status_code (some response) expected = response.status_code == expected

abbrev bytes_of : Option (List ℕ) → List ℕ
bytes_of none = []
bytes_of (some bytes) = bytes

abbrev mentions_invalid_api_key : Option (List ℕ) → Bool
mentions_invalid_api_key none = false
mentions_invalid_api_key (some bytes) = contains bytes (codes "invalid API key")

-- The test and the response with its body put back for later readers.
unfoldable pub response_has_status_forbidden_due_to_invalid_api_key :
    Option Response → Bool × Option Response
unfolding response_has_expected_status_code read_all contains
response_has_status_forbidden_due_to_invalid_api_key none = (false, none)
response_has_status_forbidden_due_to_invalid_api_key (some response) =
    if response_has_expected_status_code (some response) status_forbidden
    then (
      mentions_invalid_api_key (read_all response.body).0,
      some (record response { body = buffer (bytes_of (read_all response.body).0) }),
    )
    else (false, some response)

unfoldable pub is_non_kafka_rest_api_resource_not_found : Option Response → Bool
unfolding response_has_expected_status_code response_has_status_forbidden_due_to_invalid_api_key
is_non_kafka_rest_api_resource_not_found response =
    response_has_expected_status_code response status_not_found
    || (response_has_expected_status_code response status_forbidden
        && not (response_has_status_forbidden_due_to_invalid_api_key response).0)
