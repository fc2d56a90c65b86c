-- ===== src/Auth/Deadline.antt =====
-- That a poll ends, when, and with which tokens.
use stdiod.Base.{
  String, ℕ, zero, suc, ◌+◌, ◌-◌, ◌*◌, ◌/◌, ◌≤◌, max, ◌≡◌, refl, false, Option, some, some_inj, sym,
  ◌∙◌, subst, [], ok, ltb, leb, if_rule, All, length, arith,
}
use stdiod.Http.{Request}
use stdiod.Auth.{DeviceCodeResponse, DeviceTokenResponse, validate_token}
use stdiod.Auth.Poll.{
  Decoders, World, Turn, again, finished, Polled, poll, poll_loop, after_sleep, on_turn, after_turn,
  last_turn, too_late, min_poll_interval, second, token_request,
}
use stdiod.Auth.Turns.{total, IsAccepted, IsTurn, sent-IsTurn}

-- A sleep that was not cut short, and the turns after it.
record IsPoll (ask : Request) (deadline now : ℕ) (p : Polled) : Type 0 where
  pub in_time : total p.sleeps ≤ deadline - now
  pub spaced : min_poll_interval * length p.requests ≤ total p.sleeps
  pub asked : All (λ r. r ≡ ask) p.requests
  pub accepted : IsAccepted deadline p.finished_at p.result

abbrev Ends : Request → (deadline now : ℕ) → Option Polled → Type 0
Ends ask deadline now o = (p : Polled) × (o ≡ some p) × IsPoll ask deadline now p

turn-Ends :
    (ask : Request) (deadline now interval woken : ℕ) (more : ℕ → ℕ → Option Polled) (t : Turn)
    → suc (now + interval) ≤ deadline
    → now + interval ≤ woken
    → min_poll_interval ≤ interval
    → IsTurn deadline woken t
    → ((at longer : ℕ)
        → woken ≤ at
        → min_poll_interval ≤ longer
        → Ends ask deadline at (more at longer))
    → Ends ask deadline now (on_turn ask interval more t)
unfolding on_turn after_turn last_turn
turn-Ends ask deadline now interval woken more (finished at result) early late slow good next = (
  _,
  refl,
  record { in_time = omega arith; spaced = omega arith; asked = (refl, tt); accepted = good },
)
turn-Ends ask deadline now interval woken more (again at longer) early late slow good next =
    let (p, ended, h) = next at longer good.0 good.1 in
    rw ended (
      _,
      refl,
      record {
        in_time = omega (arith, h.in_time, good.0);
        spaced = omega (arith, h.spaced);
        asked = (refl, h.asked);
        accepted = h.accepted;
      },
    )

module _ (decoders : Decoders) (world : World) (ask : Request) (deadline : ℕ) where
  loop-Ends :
      (fuel turn now interval : ℕ)
      → suc zero ≤ fuel
      → deadline ≤ now + fuel * min_poll_interval
      → min_poll_interval ≤ interval
      → Ends ask deadline now (poll_loop decoders world ask deadline fuel turn now interval)
  unfolding poll_loop after_sleep
  loop-Ends zero turn now interval pos enough slow = absurd (omega (arith, pos))
  loop-Ends (suc fuel) turn now interval pos enough slow =
      let over : IsPoll ask deadline now (too_late [] now) = record {
        in_time = omega arith;
        spaced = omega arith;
        asked = tt;
        accepted = tt;
      } in
      let woken : ℕ = now + interval + world.late turn in
      let runs =
        sent-IsTurn decoders deadline woken interval (world.replies turn) (world.replies turn).sent
          slow in
      let next : leb (deadline - now) interval ≡ false
          → (at longer : ℕ) → woken ≤ at
          → min_poll_interval ≤ longer
          → Ends ask deadline at (poll_loop decoders world ask deadline fuel (suc turn) at longer) =
        λ early at longer late slow'.
          loop-Ends fuel (suc turn) at longer (ground (arith, enough))
            (ground (arith, late, enough)) slow' in
      if_rule (Ends ask deadline now) (leb deadline now) _ _ (λ _. (_, refl, over))
        λ _.
          if_rule (Ends ask deadline now) (leb (deadline - now) interval) _ _
            (λ _. (
              _,
              refl,
              record { in_time = omega arith; spaced = omega arith; asked = tt; accepted = tt },
            ))
            λ early.
              turn-Ends ask deadline now interval woken _ _ (ground arith) (omega arith) slow runs
                (next early)

module _ (decoders : Decoders) (world : World) (base : String) (latest now : ℕ)
    (answer : DeviceCodeResponse) (verifier : String) where
  deadline : ℕ
  deadline = now + answer.expires_in * second

  poll-Ends :
      Ends
        (token_request decoders base answer.device_code verifier)
        deadline
        now
        (poll decoders world base latest now answer verifier)
  unfolding poll deadline
  poll-Ends =
      let ask = token_request decoders base answer.device_code verifier in
      let over : IsPoll ask deadline now (too_late [] now) = record {
        in_time = omega arith;
        spaced = omega arith;
        asked = tt;
        accepted = tt;
      } in
      if_rule (Ends ask deadline now) (ltb latest deadline) _ _ (λ _. (_, refl, over))
        λ _.
          loop-Ends decoders world ask deadline (answer.expires_in / 5 + 1) 0 now
            (max (answer.interval * second) min_poll_interval) (omega arith) (omega arith)
            (omega arith)

  -- A poll returns whatever the backend answers, however late its sleeps end: it asks at most once
  -- for every five seconds before the code expires, always with the same request, and the sleeps
  -- that it asks for are together no longer than the code's lifetime.
  pub poll-terminates :
      (p : Polled) × (poll decoders world base latest now answer verifier ≡ some p)
      × (5 * length p.requests ≤ answer.expires_in)
      × (total p.sleeps ≤ answer.expires_in * second)
      × All (λ r. r ≡ token_request decoders base answer.device_code verifier) p.requests
  unfolding deadline
  poll-terminates =
      let (p, e, h) = poll-Ends in
      (p, e, omega (arith, h.in_time, h.spaced), omega (arith, h.in_time), h.asked)

  -- A token that a poll returns passed `validate_token`, and the poll returned it before the code
  -- expired.
  pub poll-validate_token :
      (p : Polled) (token : DeviceTokenResponse)
      → poll decoders world base latest now answer verifier ≡ some p
      → p.result ≡ ok token
      → (validate_token token ≡ ok tt) × (suc p.finished_at ≤ now + answer.expires_in * second)
  unfolding deadline
  poll-validate_token p token returned good =
      let (q, e, h) = poll-Ends in
      let same : q ≡ p = some_inj (sym e ∙ returned) in
      let accepted = subst (λ r. IsAccepted deadline r.finished_at r.result) same h.accepted in
      let (early, valid) = subst (IsAccepted deadline p.finished_at) good accepted in (valid, early)
