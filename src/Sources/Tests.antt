-- ===== src/Sources/Tests.antt =====
-- The theorems on data sources, at concrete ones.
use terraform_provider_confl.Base.{
  ◌≡◌, refl, Option, none, some, List, [], ◌∷◌, String, str_eq, if◌then◌else◌, arith,
}
use terraform_provider_confl.Sources.Pages.{
  unset, set, Answer, Answers, all, extract_page_token, next_step, load_pages,
}
use terraform_provider_confl.Sources.Loads.{load_environments}
use terraform_provider_confl.Sources.Lookup.{found}
use terraform_provider_confl.Sources.Reads.{environment_data_source_read_using_display_name}
use terraform_provider_confl.Sources.Complete
use terraform_provider_confl.Sources.Complete.{Chain, last_page, next_page, environments}
use terraform_provider_confl.Sources.Unique
use terraform_provider_confl.Sources.Unique.{by_environment}

-- The items are their names.
abbrev own_name : String → String
own_name name = name

-- The page token of the URL of the second page.
abbrev query_of : String → Option String
query_of url = if str_eq url "https://api/list?page_token=two" then some "two" else none

abbrev first_answer : Answer String
first_answer = record {
  page = record {
    data_of = "dev" ∷ "test" ∷ [];
    next = set (some "https://api/list?page_token=two");
  };
  err = none;
}

abbrev second_answer : Answer String
second_answer = record { page = record { data_of = "prod" ∷ []; next = unset }; err = none }

abbrev two_answers : Answers String
two_answers page_token = if str_eq page_token "" then first_answer else second_answer

abbrev both_pages : List (List String)
both_pages = ("dev" ∷ "test" ∷ []) ∷ ("prod" ∷ []) ∷ []

both_chained : Chain query_of two_answers "" both_pages
unfolding next_step extract_page_token
both_chained = next_page "" "two" (("prod" ∷ []) ∷ []) refl refl (last_page "two" refl refl)

two_loaded : load_environments query_of 2 two_answers ≡ all ("dev" ∷ "test" ∷ "prod" ∷ [])
unfolding load_environments load_pages next_step extract_page_token
two_loaded = refl

load_two_example : load_environments query_of 2 two_answers ≡ all ("dev" ∷ "test" ∷ "prod" ∷ [])
load_two_example =
    Complete.load-Chain environments query_of 2 two_answers both_pages both_chained (omega arith)

load_origin_example :
    (pages : List (List String)) × Chain query_of two_answers "" pages
    × (("dev" ∷ "test" ∷ "prod" ∷ []) ≡ Complete.concat pages)
load_origin_example =
    Complete.load-all environments query_of 2 two_answers ("dev" ∷ "test" ∷ "prod" ∷ []) two_loaded

read_second_example :
    environment_data_source_read_using_display_name own_name query_of 2 two_answers "prod"
    ≡ found "prod"
read_second_example =
    Unique.read_of-Chain by_environment own_name query_of 2 two_answers "prod" both_pages
      both_chained (omega arith)
