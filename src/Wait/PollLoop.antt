-- ===== src/Wait/PollLoop.antt =====
-- A plain loop over the polls: an implementation of the SDK's interface, to which the witnesses apply
-- the theorems about it.
use terraform_provider_confl.Base.{
  ℕ, zero, suc, ◌+◌, ◌*◌, ◌<◌, ◌≡◌, ◌≢◌, refl, true, false, Option, none, some, [], leb, arith,
  Bool-cases, inl, inr,
}
use mathlib.Core.Path.{subst}
use native.Mathlib.Nat.{add-zero}
use terraform_provider_confl.Wait.{Err, text, Outcome, returned, panicked}
use terraform_provider_confl.Wait.Sdk.{
  StateChangeConf, in_target, in_pending, is_refused, PendingBefore, MetAt, Waiter,
}

module _ (conf : StateChangeConf) where
  -- `start` is the first poll of the run of `streak` polls in a row that met the target.
  loop : ℕ → (start streak : ℕ) → Option Err
  loop zero start streak = some (text "timeout")
  loop (suc fuel) start streak = elim (in_target conf (conf.refresh (start + streak))) [
    | true ↦ elim (leb conf.continuous_target_occurence (suc streak)) [
      | true ↦ none
      | false ↦ loop fuel start (suc streak)
    ]
    | false ↦ elim (in_pending conf (conf.refresh (start + streak))) [
      | true ↦ loop fuel (suc (start + streak)) 0
      | false ↦ some (text "unexpected state")
    ]
  ]

  abbrev Run : ℕ → ℕ → Type 0
  Run start streak = (k : ℕ) → k < streak → in_target conf (conf.refresh (start + k)) ≡ true

  Run-suc :
      (start streak : ℕ)
      → Run start streak
      → in_target conf (conf.refresh (start + streak)) ≡ true
      → Run start (suc streak)
  Run-suc start streak run here k h = elim (Bool-cases (leb streak k)) [
    | inl e ↦
        let same : streak ≡ k = ground arith in
        subst (λ i. in_target conf (conf.refresh (start + i)) ≡ true) same here
    | inr e ↦ run k (ground arith)
  ]

  Run-MetAt :
      (start streak : ℕ)
      → Run start (suc streak)
      → leb conf.continuous_target_occurence (suc streak) ≡ true
      → MetAt conf start
  Run-MetAt start streak run enough = (
    subst (λ i. in_target conf (conf.refresh i) ≡ true) (add-zero start) (run 0 (omega arith)),
    λ k h. run k (ground arith),
  )

  loop_met :
      (fuel start streak : ℕ)
      → Run start streak
      → loop fuel start streak ≡ none
      → (n : ℕ) × MetAt conf n
  unfolding loop
  loop_met zero start streak run h = cc
  loop_met (suc fuel) start streak run h =
      elim (Bool-cases (in_target conf (conf.refresh (start + streak)))) [
        | inl here ↦ elim (Bool-cases (leb conf.continuous_target_occurence (suc streak))) [
          | inl enough ↦ (start, Run-MetAt start streak (Run-suc start streak run here) enough)
          | inr more ↦
              loop_met fuel start (suc streak) (Run-suc start streak run here) (ground arith)
        ]
        | inr miss ↦ elim (Bool-cases (in_pending conf (conf.refresh (start + streak)))) [
          | inl wait ↦ loop_met fuel (suc (start + streak)) 0 (λ k l. elim l [ ]) (ground arith)
          | inr stop ↦ absurd (ground arith)
        ]
      ]

  -- The run of polls in the target, once it has begun.
  loop_run :
      (fuel start streak : ℕ)
      → MetAt conf start
      → in_target conf (conf.refresh (start + streak)) ≡ true
      → conf.continuous_target_occurence < fuel + streak
      → 0 < fuel
      → loop fuel start streak ≡ none
  unfolding loop
  loop_run zero start streak m here h p = absurd (omega arith)
  loop_run (suc fuel) start streak m here h p =
      elim (Bool-cases (leb conf.continuous_target_occurence (suc streak))) [
        | inl enough ↦ rw (here, loop) (rw enough)
        | inr more ↦
            let less : suc streak < conf.continuous_target_occurence = ground arith in
            rw (here, loop)
              (rw more (
                loop_run fuel start (suc streak) m (m.1 (suc streak) less) (omega arith)
                  (omega arith)))
      ]

  pending_not_target : (o : Outcome) → in_pending conf o ≡ true → in_target conf o ≡ false
  pending_not_target (returned true state none) h = ground arith
  pending_not_target (returned true state (some e)) h = cc
  pending_not_target (returned false state none) h = cc
  pending_not_target (returned false state (some e)) h = cc
  pending_not_target panicked h = cc

  loop_waits :
      (fuel start d : ℕ)
      → PendingBefore conf (start + d)
      → MetAt conf (start + d)
      → d + conf.continuous_target_occurence < fuel
      → loop fuel start 0 ≡ none
  unfolding loop
  loop_waits fuel start zero p m h =
      let same : start + 0 ≡ start = omega arith in
      loop_run fuel start 0 (subst (MetAt conf) same m) m.0 (omega arith) (omega arith)
  loop_waits zero start (suc d) p m h = absurd (omega arith)
  loop_waits (suc fuel) start (suc d) p m h =
      let now : in_pending conf (conf.refresh (start + 0)) ≡ true = p (start + 0) (omega arith) in
      let next : start + suc d ≡ suc (start + 0) + d = omega arith in
      rw (pending_not_target _ now, loop)
        (rw now (
          loop_waits fuel (suc (start + 0)) d (subst (PendingBefore conf) next p)
            (subst (MetAt conf) next m) (omega arith)))

  refused_not_target : (o : Outcome) → is_refused conf o ≡ true → in_target conf o ≡ false
  refused_not_target (returned true state none) h = ground arith
  refused_not_target (returned true state (some e)) h = refl
  refused_not_target (returned false state none) h = refl
  refused_not_target (returned false state (some e)) h = refl
  refused_not_target panicked h = refl

  refused_not_pending : (o : Outcome) → is_refused conf o ≡ true → in_pending conf o ≡ false
  refused_not_pending (returned true state none) h = ground arith
  refused_not_pending (returned true state (some e)) h = refl
  refused_not_pending (returned false state none) h = refl
  refused_not_pending (returned false state (some e)) h = refl
  refused_not_pending panicked h = refl

  loop_refuses :
      (fuel start d : ℕ)
      → PendingBefore conf (start + d)
      → is_refused conf (conf.refresh (start + d)) ≡ true
      → loop fuel start 0 ≢ none
  unfolding loop
  loop_refuses zero start d p r h = cc
  loop_refuses (suc fuel) start zero p r h =
      ground (arith, refused_not_target _ r, refused_not_pending _ r)
  loop_refuses (suc fuel) start (suc d) p r h =
      let now : in_pending conf (conf.refresh (start + 0)) ≡ true = p (start + 0) (omega arith) in
      let next : start + suc d ≡ suc (start + 0) + d = omega arith in
      loop_refuses fuel (suc (start + 0)) d (subst (PendingBefore conf) next p)
        (subst (λ i. is_refused conf (conf.refresh i) ≡ true) next r)
        (ground (arith, pending_not_target _ now))

unfoldable pub poll : StateChangeConf → Option Err
unfolding loop
poll conf = loop conf conf.timeout 0 0

pub poll_met :
    (conf : StateChangeConf) → conf.target ≢ [] → poll conf ≡ none → (n : ℕ) × MetAt conf n
unfolding poll
poll_met conf t h = loop_met conf conf.timeout 0 0 (λ k l. elim l [ ]) h

pub poll_waits :
    (conf : StateChangeConf) (n : ℕ)
    → PendingBefore conf n
    → MetAt conf n
    → 0 < conf.poll_interval
    → conf.delay + (n + conf.continuous_target_occurence) * conf.poll_interval < conf.timeout
    → poll conf ≡ none
unfolding poll
poll_waits conf n p m i h =
    let same : n ≡ 0 + n = omega arith in
    loop_waits conf conf.timeout 0 n (subst (PendingBefore conf) same p) (subst (MetAt conf) same m)
      (grind arith)

pub poll_refuses :
    (conf : StateChangeConf) (n : ℕ)
    → PendingBefore conf n
    → is_refused conf (conf.refresh n) ≡ true
    → poll conf ≢ none
unfolding poll
poll_refuses conf n p r =
    let same : n ≡ 0 + n = omega arith in
    loop_refuses conf conf.timeout 0 n (subst (PendingBefore conf) same p)
      (subst (λ i. is_refused conf (conf.refresh i) ≡ true) same r)

abbrev pub poll_waiter : Waiter
poll_waiter = record {
  wait_for_state = poll;
  met = poll_met;
  waits = poll_waits;
  refuses = poll_refuses;
}
