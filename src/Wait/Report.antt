-- ===== src/Wait/Report.antt =====
-- What the refresh functions for phases have in common: an accepted phase is reported as the state,
-- anything else as an error. From that, what the SDK's loop makes of them.
use terraform_provider_confl.Base.{
  ◌≡◌, ◌≢◌, refl, Bool, true, false, ◌||◌, Option, none, List, [], ◌∷◌, ◌++◌, String, one_of,
  str_eq, arith, Bool-cases, Option-cases, inl, inr, ◌⊎◌, if◌then◌else◌,
}
use terraform_provider_confl.Wait.{Call, Resource, Err, Outcome, found, failed, on_success, api}
use terraform_provider_confl.Wait.States.{state_failed}
use terraform_provider_confl.Wait.Provision.{phase_outcome}
use terraform_provider_confl.Wait.Sdk.{StateChangeConf, in_target, is_refused}

-- The call has succeeded, with one of these phases.
abbrev pub Reads : List String → Call Resource → Type 0
Reads phases call = (call.err ≡ none) × (one_of call.value.phase phases ≡ true)

-- It has failed, or with none of these phases.
abbrev pub Misses : List String → Call Resource → Type 0
Misses phases call = (call.err ≢ none) ⊎ (one_of call.value.phase phases ≡ false)

-- How an outcome reports a call.
pub data Report (phases : List String) (call : Call Resource) (o : Outcome) : Type 0 where
  accepted : Reads phases call → o ≡ found call.value.phase → Report phases call o
  rejected :
      Misses phases call
      → (state : String) (err : Err) → o ≡ failed state err
      → Report phases call o

pub one_of-append :
    (s : String) (xs ys : List String) → one_of s (xs ++ ys) ≡ (one_of s xs || one_of s ys)
one_of-append s [] ys = refl
one_of-append s (x ∷ xs) ys = ground (arith, one_of-append s xs ys)

-- A ladder that finds an accepted phase and fails on any other.
pub Report-on_success :
    (phases : List String) (call : Call Resource) (state : String) (ladder : Resource → Outcome)
    → (one_of call.value.phase phases ≡ true → ladder call.value ≡ found call.value.phase)
    → (one_of call.value.phase phases ≡ false
        → (s : String) × (e : Err) × (ladder call.value ≡ failed s e))
    → Report phases call (on_success call state ladder)
Report-on_success phases call state ladder yes_case no_case = elim (Option-cases call.err) [
  | inr (e, bad) ↦ rejected (inl (ground arith)) state (api e) (rw bad)
  | inl good ↦ elim (Bool-cases (one_of call.value.phase phases)) [
    | inl hit ↦ accepted (good, hit) (rw good (yes_case hit))
    | inr miss ↦ let (s, e, same) = no_case miss in rejected (inr miss) s e (rw good same)
  ]
]

abbrev pub Fails : Outcome → Type 0
Fails o = (s : String) × (e : Err) × (o ≡ failed s e)

-- A rung of a ladder that fails either way.
pub Fails-if : (b : Bool) {x y : Outcome} → Fails x → Fails y → Fails (if b then x else y)
Fails-if true f g = f
Fails-if false f g = g

pub Fails-failed : (state : String) (err : Err) → Fails (failed state err)
Fails-failed state err = (state, err, refl)

pub Report-phase_outcome :
    (phases : List String) (call : Call Resource) (state id : String)
    (detail : Resource → Option String)
    → Report phases call (on_success call state (phase_outcome phases id detail))
unfolding phase_outcome
Report-phase_outcome phases call state id detail =
    Report-on_success phases call state (phase_outcome phases id detail) (λ hit. rw hit)
      λ miss.
        rw miss
          (Fails-if (str_eq call.value.phase state_failed) (Fails-failed _ _) (Fails-failed _ _))

module _ (conf : StateChangeConf) {phases : List String} {call : Call Resource} {o : Outcome}
    (report : Report phases call o) where
  pub in_target-Report : in_target conf o ≡ true → Reads conf.target call
  in_target-Report h = by report
    where
      by : Report phases call o → Reads conf.target call
      by (accepted reads same) = (reads.0, rw same at h)
      by (rejected misses state err same) = absurd (ground arith)

  -- A call that reads one of the phases is reported as found.
  pub found-Report : Reads phases call → o ≡ found call.value.phase
  found-Report (ok, hit) = by report
    where
      by : Report phases call o → o ≡ found call.value.phase
      by (accepted reads same) = same
      by (rejected (inl bad) state err same) = absurd (bad ok)
      by (rejected (inr miss) state err same) = absurd (ground arith)

  -- Any other call is an error, which ends the wait.
  pub is_refused-Report : Misses phases call → is_refused conf o ≡ true
  is_refused-Report misses = by report misses
    where
      by : Report phases call o → Misses phases call → is_refused conf o ≡ true
      by (accepted (ok, hit) same) (inl bad) = absurd (bad ok)
      by (accepted (ok, hit) same) (inr miss) = absurd (ground arith)
      by (rejected _ state err same) _ = rw same
