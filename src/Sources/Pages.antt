-- ===== src/Sources/Pages.antt =====
-- internal/provider/utils.go: `extractPageToken`; the loop that the `load…` functions of the data
-- sources have in common.
use terraform_provider_confl.Base.{
  ℕ, zero, suc, Option, none, some, List, ◌++◌, String, str_eq, if◌then◌else◌,
}
use terraform_provider_confl.Http.Descriptive.{ApiError}

-- `NullableString`: whether it is set, and if so the pointer.
pub data Nullable : Type 0 where
  unset : Nullable
  set : Option String → Nullable

-- `GetData()` and `GetMetadata().Next` of a page.
pub record Page {ℓ} (A : Type ℓ) : Type ℓ where
  pub data_of : List A
  pub next : Nullable

-- What the API answers for a page token; the empty token asks for the first page.
pub record Answer {ℓ} (A : Type ℓ) : Type ℓ where
  pub page : Page A
  pub err : Option ApiError

abbrev pub Answers {ℓ} : Type ℓ → Type ℓ
Answers A = (page_token : String) → Answer A

pub data LoadError : Type 0 where
  api : ApiError → LoadError
  unparsable_url no_page_token : String → LoadError

-- `exhausted` is the end of the fuel.
pub data Loaded {ℓ} (A : Type ℓ) : Type ℓ where
  all : List A → Loaded A
  failed : LoadError → Loaded A
  panicked exhausted : Loaded A

-- The items so far, and the token of the next page.
pub data Token : Type 0 where
  token : String → Token
  bad : LoadError → Token

-- `query url` is none if `url.Parse` fails, and the value of `page_token` in the query otherwise.
unfoldable pub extract_page_token : (query : String → Option String) → String → Token
extract_page_token query next_page_url_string = elim (query next_page_url_string) [
  | none ↦ bad (unparsable_url next_page_url_string)
  | some page_token ↦
      if str_eq page_token "" then bad (no_page_token next_page_url_string) else token page_token
]

-- What the loop does after a page.
pub data Step : Type 0 where
  last : Step
  more : String → Step
  fails : LoadError → Step
  panics : Step

abbrev step_of : Token → Step
step_of (token page_token) = more page_token
step_of (bad e) = fails e

unfoldable pub next_step : (query : String → Option String) → Nullable → Step
unfolding extract_page_token
next_step query unset = last
next_step query (set none) = panics
next_step query (set (some next_page_url_string)) =
    if str_eq next_page_url_string ""
    then last
    else step_of (extract_page_token query next_page_url_string)

-- The loop: one unit of fuel is one page.
unfoldable pub load_pages {ℓ} :
    {A : Type ℓ} → (query : String → Option String) → ℕ → Answers A → String → List A → Loaded A
unfolding next_step
load_pages query zero answers page_token items = exhausted
load_pages query (suc fuel) answers page_token items = elim (answers page_token).err [
  | some e ↦ failed (api e)
  | none ↦ elim (next_step query (answers page_token).page.next) [
    | last ↦ all (items ++ (answers page_token).page.data_of)
    | more t ↦ load_pages query fuel answers t (items ++ (answers page_token).page.data_of)
    | fails e ↦ failed e
    | panics ↦ panicked
  ]
]
