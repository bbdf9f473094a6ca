-- ===== src/Wait.antt =====
-- internal/provider/utils_wait.go: what a poll of a long operation reports. The children define the
-- refresh functions (Provision, Flink, Catalog, Deletion, Sync), the loop of the SDK that calls them
-- (Sdk) and the functions that configure it (Waiters).
-- An API call is the value of an argument: `get environment id` for what `executeXRead` returns.
-- The fixed words of an error's text are left out: an error holds the values put into the text.
pub mod States
pub mod Provision
pub mod Special
pub mod Flink
pub mod Catalog
pub mod Deletion
pub mod Sync
pub mod Sdk
pub mod PollLoop
pub mod Waiters
mod Report
pub mod Provisioned
pub mod Deleted
pub mod Mistaken
pub mod Unanswered
pub mod Resumed
mod Tests
use terraform_provider_confl.Base.{Bool, true, false, Option, none, some, String, ℕ}
use terraform_provider_confl.Http.{Response}
use terraform_provider_confl.Http.Descriptive.{ApiError}

-- The three results of a call of an API client. After a failed call the value is the zero value.
pub record Call (A : Type 0) : Type 0 where
  pub value : A
  pub resp : Option Response
  pub err : Option ApiError

-- `Status.GetPhase()`, and `Status.GetErrorMessage()`, `GetDetail()` or `GetTrace()`.
pub record Resource : Type 0 where
  pub phase : String
  pub detail : String

-- What the client library answers for the resource of that id in that environment.
abbrev pub Get : Type 0
Get = (environment_id id : String) → Call Resource

pub data Err : Type 0 where
  api : ApiError → Err
  status_is unexpected_state : (id phase : String) (detail : Option String) → Err
  unexpected_status_code : (id : String) (code : ℕ) → Err
  text : String → Err

-- `resource.StateRefreshFunc`: whether the result is not nil, the state, and the error; or the
-- dereference of a nil response.
pub data Outcome : Type 0 where
  returned : (found : Bool) (state : String) (err : Option Err) → Outcome
  panicked : Outcome

abbrev pub found : String → Outcome
found state = returned true state none

abbrev pub failed : String → Err → Outcome
failed state err = returned false state (some err)

-- `if err != nil { return nil, state, err }`, and what follows it.
abbrev pub on_success : {A : Type 0} → Call A → String → (A → Outcome) → Outcome
on_success call state next = elim call.err [
  | some e ↦ failed state (api e)
  | none ↦ next call.value
]
