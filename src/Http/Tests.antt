-- ===== src/Http/Tests.antt =====
-- The theorems on failed reads, at concrete responses.
use terraform_provider_confl.Base.{ℕ, ◌≡◌, ◌||◌, refl, Option, none, some, List, ◌==◌, codes}
use terraform_provider_confl.Http.{Response, network, is_non_kafka_rest_api_resource_not_found}
use terraform_provider_confl.Http.Descriptive.{ApiError, create_descriptive_error, detail_of}
use terraform_provider_confl.Http.NotFound.{not_found-described_without_detail}

abbrev refused : Response
refused = record { status_code = 403; body = network (codes "invalid API key") }

abbrev bare : ApiError
bare = record { text = "403 Forbidden"; model = none }

abbrev no_gzip : List ℕ → Option (List ℕ)
no_gzip bytes = none

without_detail_example :
    is_non_kafka_rest_api_resource_not_found
      (create_descriptive_error no_gzip bare (some refused)).1
    ≡ (refused.status_code == 404 || refused.status_code == 403)
unfolding detail_of
without_detail_example = not_found-described_without_detail no_gzip bare refused refl
