-- ===== src/Statement/Tests.antt =====
-- The theorems on Flink statements, at concrete ones.
use terraform_provider_confl.Base.{
  ℕ, ◌≡◌, refl, true, false, not, ◌&&◌, ◌||◌, Option, none, List, [], ◌∷◌,
}
use terraform_provider_confl.Wait.{Call}
use terraform_provider_confl.Wait.PollLoop.{poll_waiter}
use terraform_provider_confl.Statement.Settings.{FlinkProvider, FlinkEnvironment}
use terraform_provider_confl.Statement.Gateway.{FlinkStatement, FlinkData, FlinkApi}
use terraform_provider_confl.Statement.Handlers.{FlinkChanges, flink_statement_update}
use terraform_provider_confl.Statement.Plan.{resource_flink_statement_diff}
use terraform_provider_confl.Statement.Throughout.{is_refusal}
use terraform_provider_confl.Statement.Guards
use terraform_provider_confl.Statement.Secrets
use terraform_provider_confl.Statement.Secrets.{update_it}
use terraform_provider_confl.Statement.Sent

abbrev no_gunzip : List ℕ → Option (List ℕ)
no_gunzip bytes = none

-- A statement that runs, with a secret.
abbrev select_one : FlinkStatement
select_one = record {
  name = "select-1";
  organization_id = "org-1";
  environment_id = "env-1";
  statement = "SELECT 1;";
  properties = ("sql.secrets.key", "s3cr3t") ∷ ("sql.current-catalog", "main") ∷ [];
  compute_pool_id = "lfcp-1";
  principal = "sa-1";
  stopped = false;
  status = record { phase = "RUNNING"; detail = "" };
  latest_offsets = [];
  latest_offsets_timestamp = "";
}

abbrev answer_of : {A : Type 0} → A → Call A
answer_of a = record { value = a; resp = none; err = none }

abbrev gateway : FlinkApi
gateway = record {
  create = λ log. λ c. λ q. answer_of select_one;
  get = λ log. λ c. λ name. answer_of select_one;
  poll = λ log. λ c. λ n. λ name. answer_of (record { phase = "STOPPED"; detail = "" });
  update = λ log. λ c. λ name. λ s. answer_of s;
  delete = λ log. λ c. λ name. answer_of tt;
}

abbrev nowhere : FlinkEnvironment
nowhere name = ""

abbrev flink_in_provider : FlinkProvider
flink_in_provider = record {
  is_flink_metadata_set = true;
  is_oauth_enabled = false;
  flink_principal_id = "sa-1";
  flink_organization_id = "org-1";
  flink_environment_id = "env-1";
  flink_compute_pool_id = "lfcp-1";
  flink_api_key = "key";
  flink_api_secret = "secret";
  flink_rest_endpoint = "https://flink";
}

-- It is to be stopped.
abbrev to_be_stopped : FlinkData
to_be_stopped = record {
  id = "env-1/lfcp-1/select-1";
  is_new_resource = false;
  statement_name = "select-1";
  statement = "SELECT 1;";
  properties = [];
  properties_sensitive = ("sql.secrets.key", "s3cr3t") ∷ [];
  old_stopped = false;
  stopped = true;
  latest_offsets = [];
  latest_offsets_timestamp = "";
  blocks = record {
    organization_id = "";
    environment_id = "";
    compute_pool_id = "";
    principal_id = "";
    rest_endpoint = "";
    api_key = "";
    api_secret = "";
  };
}

-- Nothing but `stopped` changes.
abbrev only_stopped : FlinkChanges
only_stopped = record {
  others = false;
  principal = false;
  compute_pool = false;
  properties_sensitive = false;
}

guarded_example :
    is_refusal
      (flink_statement_update no_gunzip poll_waiter false gateway nowhere flink_in_provider false
        only_stopped [] to_be_stopped).0
    ≡ (Guards.plan_refuses (resource_flink_statement_diff only_stopped to_be_stopped)
        || (to_be_stopped.old_stopped
            && not to_be_stopped.stopped
            && only_stopped.properties_sensitive))
guarded_example =
    Guards.flink_statement_update-refuses_as_planned no_gunzip poll_waiter false gateway nowhere
      flink_in_provider false only_stopped [] to_be_stopped refl refl

no_secret_example : Secrets.Clean (
    Secrets.operate no_gunzip poll_waiter false gateway nowhere flink_in_provider false
      (update_it only_stopped)
      []
      to_be_stopped)
no_secret_example =
    Secrets.operate-Clean no_gunzip poll_waiter false gateway nowhere flink_in_provider false
      (update_it only_stopped) [] to_be_stopped

one_call_example :
    Sent.Sent no_gunzip poll_waiter false gateway nowhere flink_in_provider false only_stopped
      to_be_stopped []
      (flink_statement_update no_gunzip poll_waiter false gateway nowhere flink_in_provider false
        only_stopped [] to_be_stopped).1
one_call_example =
    Sent.flink_statement_update-Sent no_gunzip poll_waiter false gateway nowhere flink_in_provider
      false only_stopped [] to_be_stopped
