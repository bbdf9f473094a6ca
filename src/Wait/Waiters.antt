-- ===== src/Wait/Waiters.antt =====
-- utils_wait.go, the `waitFor` functions: each configures the SDK's loop with a refresh function and
-- returns its error. `polls n` is what the API answers at the n-th poll; the client's acceptance test
-- mode is an argument. The children hold the functions, by what they wait for.
pub mod Provisioning
pub mod Deleting
pub mod Keys
pub mod Catalogs
pub mod Flinks
pub mod Connectors
use terraform_provider_confl.Base.{
  ℕ, ◌*◌, ◌<◌, arith, Bool, true, false, List, String, str_eq, if◌then◌else◌,
}
use terraform_provider_confl.Wait.{Outcome}
use terraform_provider_confl.Wait.Sdk.{StateChangeConf}

-- Seconds in a minute and in an hour.
abbrev pub minute : ℕ
minute = 60

abbrev pub hour : ℕ
hour = 3600

-- The wait time and the poll interval of the acceptance tests are one second each.
unfoldable pub get_delay_and_poll_interval : (delay_normal poll_interval_normal : ℕ) → Bool → ℕ × ℕ
get_delay_and_poll_interval delay_normal poll_interval_normal is_acceptance_test_mode =
    if is_acceptance_test_mode then (1, 1) else (delay_normal, poll_interval_normal)

unfoldable pub get_timeout_for : String → ℕ
get_timeout_for cluster_type = if str_eq cluster_type "Dedicated" then 72 * hour else hour

abbrev pub networking_api_create_timeout : ℕ
networking_api_create_timeout = 2 * hour

abbrev pub networking_api_delete_timeout : ℕ
networking_api_delete_timeout = 5 * hour

-- A configuration that sets no continuous target occurence.
abbrev pub state_change_conf :
    (pending target : List String) → (ℕ → Outcome) → ℕ → ℕ × ℕ → StateChangeConf
state_change_conf pending target refresh timeout (delay, poll_interval) = record {
  pending = pending;
  target = target;
  refresh = refresh;
  timeout = timeout;
  delay = delay;
  poll_interval = poll_interval;
  continuous_target_occurence = 0;
}

pub poll_interval-pos :
    (delay_normal poll_interval_normal : ℕ) (is_test : Bool)
    → 0 < poll_interval_normal
    → 0 < (get_delay_and_poll_interval delay_normal poll_interval_normal is_test).1
unfolding get_delay_and_poll_interval
poll_interval-pos d p true h = omega arith
poll_interval-pos d p false h = h
