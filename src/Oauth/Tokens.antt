-- ===== src/Oauth/Tokens.antt =====
-- internal/provider/oauth.go: when a token counts as valid, and how a new one is requested.
use terraform_provider_confl.Base.{
  ℕ, suc, ℤ, pos, negsuc, times_int64, ◌+◌, ◌-◌, ◌*◌, ◌/◌, Bool, false, not, ◌&&◌, Option, none,
  some, List, [], ◌∷◌, String, ◌==◌, ltb, leb, str_eq, if◌then◌else◌,
}
use terraform_provider_confl.Http.{Response, Body, read_all, status_ok}
use terraform_provider_confl.Oauth.{
  Handle, OauthToken, StsToken, TokenRequest, Json, text, number, StsReply, http_client_is_nil,
  sts_client_is_nil, transport, unreadable_body, unparsable_body, bad_url, refused, not_an_integer,
  sts_refused, Result, ok, error, panicked, World,
}
use terraform_provider_confl.Oauth.Decimal.{itoa, parse_int}

abbrev pub second : ℕ
second = 1000000000

abbrev pub external_token_expiration_buffer : ℕ
external_token_expiration_buffer = 180 * second

abbrev pub sts_token_expiration_buffer : ℕ
sts_token_expiration_buffer = 60 * second

-- How long before its expiry a token stops to count as valid: half of a short lifetime.
unfoldable pub expiration_buffer : (buffer expiry_duration : ℕ) → ℕ
expiration_buffer buffer expiry_duration =
    if leb expiry_duration buffer then expiry_duration / 2 else buffer

-- The time that is not the zero time and not before `now`.
unfoldable pub is_current : (valid_until now : ℕ) → Bool
is_current valid_until now = not (valid_until == 0) && not (ltb valid_until now)

unfoldable pub validate_current_external_oauth_token : Option OauthToken → ℕ → Bool
unfolding is_current
validate_current_external_oauth_token none now = false
validate_current_external_oauth_token (some token) now = is_current token.valid_until now

unfoldable pub validate_current_sts_oauth_token : Option StsToken → ℕ → Bool
unfolding is_current
validate_current_sts_oauth_token none now = false
validate_current_sts_oauth_token (some token) now = is_current token.valid_until now

-- `v, ok := m[key].(string)`: the zero value is the empty text.
abbrev string_or_empty : Option Json → String
string_or_empty (some (text s)) = s
string_or_empty _ = ""

unfoldable pub build_external_oauth_request :
    World → (token_url client_id client_secret custom_scope : String) → Option TokenRequest
build_external_oauth_request world token_url client_id client_secret custom_scope =
    if world.parses token_url
    then some record {
      url = token_url;
      client_id = client_id;
      client_secret = client_secret;
      scope = if str_eq custom_scope "" then none else some custom_scope;
    }
    else none

-- `now.Add(expiry_duration - buffer)`, where a lifetime that is not above the buffer, also one that is
-- negative, has half of it as the buffer: Go's division drops the fraction. The zero time stands
-- for the times before it, none of which counts as valid either.
unfoldable pub valid_until_of : (now : ℕ) (expiry_duration : ℤ) → ℕ
unfolding expiration_buffer
valid_until_of now (pos n) = now + (n - expiration_buffer external_token_expiration_buffer n)
valid_until_of now (negsuc n) = now - (suc n - suc n / 2)

-- What `expires_in` sets: the text and the time until which the token is valid. `v.(float64)` panics
-- on a value that is not a number. The lifetime in nanoseconds is an int64, and wraps around.
unfoldable pub expiry_of : Option Json → ℕ → Result (String × ℕ)
unfolding valid_until_of times_int64
expiry_of none now = ok ("", 0)
expiry_of (some (number printed whole)) now =
    ok (printed, valid_until_of now (times_int64 whole second))
expiry_of (some _) now = panicked

abbrev pub bind {ℓ κ} : {A : Type ℓ} → {B : Type κ} → Result A → (A → Result B) → Result B
bind (ok a) next = next a
bind (error e) next = error e
bind panicked next = panicked

unfoldable pub parse_external_oauth_response :
    World
    → Body
    → (custom_scope identity_pool_id token_url client_id client_secret : String) → Option Handle
    → Result OauthToken
unfolding expiry_of read_all
parse_external_oauth_response world body custom_scope identity_pool_id token_url client_id
      client_secret client =
    elim (read_all body).0 [
      | none ↦ error unreadable_body
      | some raw ↦ elim (world.unmarshal raw) [
        | none ↦ error unparsable_body
        | some reply ↦ bind (expiry_of reply.expires_in world.clock.external_issued) (λ expiry.
            ok record {
              client_id = client_id;
              client_secret = client_secret;
              token_url = token_url;
              expires_in_seconds = expiry.0;
              scope = custom_scope;
              access_token = string_or_empty reply.access_token;
              token_type = string_or_empty reply.token_type;
              identity_pool_id = identity_pool_id;
              valid_until = expiry.1;
              http_client = client;
            })
      ]
    ]

-- The answer to a request: a status other than 200 is an error with the body as its description.
unfoldable pub external_reply :
    World
    → Option Response
    → (custom_scope identity_pool_id token_url client_id client_secret : String) → Option Handle
    → Result OauthToken
unfolding parse_external_oauth_response read_all
external_reply world none custom_scope identity_pool_id token_url client_id client_secret client =
    error transport
external_reply world (some resp) custom_scope identity_pool_id token_url client_id client_secret
      client =
    if not (resp.status_code == status_ok)
    then elim (read_all resp.body).0 [
      | none ↦ error unreadable_body
      | some description ↦ error (refused resp.status_code description)
    ]
    else parse_external_oauth_response world resp.body custom_scope identity_pool_id token_url
        client_id client_secret client

unfoldable pub request_new_external_oauth_token :
    World
    → (token_url client_id client_secret custom_scope identity_pool_id : String) → Option Handle
    → Result OauthToken
unfolding external_reply build_external_oauth_request
request_new_external_oauth_token world token_url client_id client_secret custom_scope
      identity_pool_id none =
    error http_client_is_nil
request_new_external_oauth_token world token_url client_id client_secret custom_scope
      identity_pool_id (some client) =
    elim (build_external_oauth_request world token_url client_id client_secret custom_scope) [
      | none ↦ error (bad_url token_url)
      | some req ↦
          external_reply world (world.send client req) custom_scope identity_pool_id token_url
            client_id client_secret (some client)
    ]

unfoldable pub fetch_external_oauth_token :
    World
    → (token_url client_id client_secret custom_scope identity_pool_id : String) → Option OauthToken
    → Option Handle
    → Result (Option OauthToken)
unfolding validate_current_external_oauth_token request_new_external_oauth_token
fetch_external_oauth_token world token_url client_id client_secret custom_scope identity_pool_id
      curr_token client =
    if validate_current_external_oauth_token curr_token world.clock.external_checked
    then ok curr_token
    else bind
        (request_new_external_oauth_token world token_url client_id client_secret custom_scope
          identity_pool_id client)
        (λ token. ok (some token))

-- The optional lifetime of a request; none if the text is not an integer.
unfoldable pub requested_lifetime : List ℕ → Option (Option (Bool × ℕ))
unfolding parse_int
requested_lifetime [] = some none
requested_lifetime (c ∷ s) = elim (parse_int (c ∷ s)) [ none ↦ none | some n ↦ some (some n) ]

unfoldable pub sts_token_of : World → Handle → String → StsReply → StsToken
unfolding itoa expiration_buffer
sts_token_of world client identity_pool_id resp = record {
  expires_in_seconds = itoa resp.expires_in;
  access_token = resp.access_token;
  token_type = resp.token_type;
  issued_token_type = resp.issued_token_type;
  identity_pool_id = identity_pool_id;
  valid_until =
      world.clock.sts_issued
      + (resp.expires_in * second
          - expiration_buffer sts_token_expiration_buffer (resp.expires_in * second));
  sts_client = some client;
}

unfoldable pub request_new_sts_oauth_token :
    World
    → (subject_token identity_pool_id : String) → (expired_in_seconds : List ℕ) → Option Handle
    → Result StsToken
unfolding requested_lifetime sts_token_of
request_new_sts_oauth_token world subject_token identity_pool_id expired_in_seconds none =
    error sts_client_is_nil
request_new_sts_oauth_token world subject_token identity_pool_id expired_in_seconds (some client) =
    elim (requested_lifetime expired_in_seconds) [
      | none ↦ error (not_an_integer expired_in_seconds)
      | some expires_in ↦
          elim (world.exchange client record {
            subject_token = subject_token;
            identity_pool_id = identity_pool_id;
            expires_in = expires_in;
          }) [
            | none ↦ error sts_refused
            | some resp ↦ ok (sts_token_of world client identity_pool_id resp)
          ]
    ]

unfoldable pub fetch_sts_oauth_token :
    World
    → (subject_token identity_pool_id : String) → (expired_in_seconds : List ℕ) → Option StsToken
    → Option Handle
    → Result (Option StsToken)
unfolding validate_current_sts_oauth_token request_new_sts_oauth_token
fetch_sts_oauth_token world subject_token identity_pool_id expired_in_seconds curr_token client =
    if validate_current_sts_oauth_token curr_token world.clock.sts_checked
    then ok curr_token
    else bind
        (request_new_sts_oauth_token world subject_token identity_pool_id expired_in_seconds client)
        (λ token. ok (some token))
