-- ===== src/Http/Descriptive.antt =====
-- utils.go, `createDescriptiveError`.
use terraform_provider_confl.Base.{
  ℕ, Bool, false, ◌&&◌, Option, none, some, List, ◌∷◌, String, ◌==◌, if◌then◌else◌,
}
use terraform_provider_confl.Http.{Response, read_all, close}

-- What `FieldByName("Message")` finds in the model of a failed call, with the value behind its
-- pointer, where that is not nil.
pub data MessageField : Type 0 where
  absent : MessageField
  struct pointer : Option String → MessageField

-- `errors` is `none` where the model has no slice of that name; of each entry, its detail.
pub record Failure : Type 0 where
  pub errors : Option (List (Option String))
  pub message : MessageField

-- An error of an API client. `model` is `none` where it is no `GenericOpenAPIError`, and
-- `some none` where its model is nil.
pub record ApiError : Type 0 where
  pub text : String
  pub model : Option (Option Failure)

-- The text of an error: `m`, `m: detail`, or `m` with the raw body of the response behind it.
pub data Message : Type 0 where
  plain : String → Message
  with_detail : String → String → Message
  with_raw_body : String → List ℕ → Message

unfoldable pub detail_of_message_field : MessageField → Option String
detail_of_message_field absent = none
detail_of_message_field (struct detail) = detail
detail_of_message_field (pointer detail) = detail

unfoldable pub detail_of_failure : Failure → Option String
unfolding detail_of_message_field
detail_of_failure failure = elim failure.errors [
  | some (nest ∷ _) ↦ nest
  | _ ↦ detail_of_message_field failure.message
]

unfoldable pub detail_of : Option (Option Failure) → Option String
unfolding detail_of_failure
detail_of (some (some failure)) = detail_of_failure failure
detail_of _ = none

-- The magic bytes of gzip.
abbrev looks_like_gzip : List ℕ → Bool
looks_like_gzip (a ∷ b ∷ _) = a == 0x1f && b == 0x8b
looks_like_gzip _ = false

abbrev or_else : List ℕ → Option (List ℕ) → List ℕ
or_else bytes none = bytes
or_else bytes (some decompressed) = decompressed

module _ (gunzip : List ℕ → Option (List ℕ)) where
  unfoldable pub decompress : List ℕ → List ℕ
  decompress bytes = if looks_like_gzip bytes then or_else bytes (gunzip bytes) else bytes

  abbrev raw_message : String → Option (List ℕ) → Message
  raw_message text none = plain text
  raw_message text (some bytes) = with_raw_body text (decompress bytes)

  -- The message, and the response as it is left: without details in the error's model the body is
  -- read to its end and closed.
  unfoldable pub create_descriptive_error : ApiError → Option Response → Message × Option Response
  unfolding detail_of read_all close decompress
  create_descriptive_error err resp = elim (detail_of err.model) [
    | some detail ↦ (with_detail err.text detail, resp)
    | none ↦ elim resp [
      | none ↦ (plain err.text, none)
      | some response ↦ (
        raw_message err.text (read_all response.body).0,
        some (record response { body = close (read_all response.body).1 }),
      )
    ]
  ]
