-- ===== src/Oauth.antt =====
-- internal/provider/oauth.go and the parts of internal/provider/utils.go that renew tokens: the data
-- that the children share. Decimal prints and reads the lifetime of an STS token, Tokens requests
-- tokens, Session is the state of a client and its renewal, Contexts is what a request carries.
-- A time is in nanoseconds; the zero time is 0. `World` holds what the program does not decide: the
-- replies of the servers, the clock, and the functions of Go's libraries on URLs and on JSON.
-- Log lines are left out.
pub mod Decimal
pub mod Tokens
pub mod Session
pub mod Packages
pub mod Contexts
pub mod RestClients
pub mod Validity
pub mod External
pub mod Renewal
pub mod Carried
pub mod RestCarried
pub mod Kept
mod Tests
use terraform_provider_confl.Base.{ℕ, ℤ, Bool, Option, List, String}
use terraform_provider_confl.Http.{Response}

-- A pointer to an HTTP client or to an STS client; a nil pointer is `none`.
abbrev pub Handle : Type 0
Handle = ℕ

pub record OauthToken : Type 0 where
  pub client_id : String
  pub client_secret : String
  pub token_url : String
  pub expires_in_seconds : String
  pub scope : String
  pub access_token : String
  pub token_type : String
  pub identity_pool_id : String
  pub valid_until : ℕ
  pub http_client : Option Handle

-- The lifetime is a text, as a list of bytes.
pub record StsToken : Type 0 where
  pub expires_in_seconds : List ℕ
  pub access_token : String
  pub token_type : String
  pub issued_token_type : String
  pub identity_pool_id : String
  pub valid_until : ℕ
  pub sts_client : Option Handle

-- The form that is posted to the token URL; `scope` is set if it is not empty.
pub record TokenRequest : Type 0 where
  pub url : String
  pub client_id : String
  pub client_secret : String
  pub scope : Option String

-- `expires_in` is a sign, true for a negative number, and a magnitude.
pub record StsRequest : Type 0 where
  pub subject_token : String
  pub identity_pool_id : String
  pub expires_in : Option (Bool × ℕ)

-- A value of a decoded JSON object: a text, a number, or another value. A number has what `%v`
-- prints, and the int64 that Go's conversion of the float64 makes of it.
pub data Json : Type 0 where
  text : String → Json
  number : (printed : String) (whole : ℤ) → Json
  other : Json

pub record TokenReply : Type 0 where
  pub access_token : Option Json
  pub token_type : Option Json
  pub expires_in : Option Json

-- `ExpiresIn` is an int32 that is not negative.
pub record StsReply : Type 0 where
  pub access_token : String
  pub token_type : String
  pub issued_token_type : String
  pub expires_in : ℕ

pub data OauthError : Type 0 where
  http_client_is_nil sts_client_is_nil transport unreadable_body unparsable_body : OauthError
  bad_url : String → OauthError
  refused : (status_code : ℕ) (description : List ℕ) → OauthError
  not_an_integer : List ℕ → OauthError
  sts_refused : OauthError

-- What a function returns, or that it panics.
pub data Result {ℓ} (A : Type ℓ) : Type ℓ where
  ok : A → Result A
  error : OauthError → Result A
  panicked : Result A

-- The readings of the clock in the order in which a renewal takes them.
pub record Clock : Type 0 where
  pub sts_checked : ℕ
  pub external_checked : ℕ
  pub external_issued : ℕ
  pub sts_issued : ℕ

pub record World : Type 0 where
  pub clock : Clock
  pub parses : String → Bool
  pub unmarshal : List ℕ → Option TokenReply
  pub send : Handle → TokenRequest → Option Response
  pub exchange : Handle → StsRequest → Option StsReply
