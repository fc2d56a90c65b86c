-- ===== src/Auth/Turns.antt =====
-- What one turn of the poll loop guarantees.
use stdiod.Base.{
  String, ℕ, suc, ◌+◌, ◌≤◌, ◌≡◌, false, List, [], ◌∷◌, Result, ok, err, leb, eqb, if_rule, arith,
  Result-cases, inl, inr,
}
use stdiod.Http.{Response, text_of, is_success}
use stdiod.Auth.{AuthError, DeviceTokenResponse, validate_token}
use stdiod.Auth.Poll.{
  Decoders, Reply, Turn, again, finished, read_body, read_error, slowed, after_response, on_sent,
  accept, after_error, min_poll_interval, max_duration,
}

abbrev pub total : List ℕ → ℕ
total [] = 0
total (n ∷ more) = n + total more

-- A token that the code may return at a time.
abbrev pub IsAccepted : (deadline at : ℕ) → Result AuthError DeviceTokenResponse → Type 0
IsAccepted deadline at (ok token) = (suc at ≤ deadline) × (validate_token token ≡ ok tt)
IsAccepted deadline at (err e) = Unit

-- What a turn of the loop guarantees, `woken` being the end of its sleep.
abbrev pub IsTurn : (deadline woken : ℕ) → Turn → Type 0
IsTurn deadline woken (again at longer) = (woken ≤ at) × (min_poll_interval ≤ longer)
IsTurn deadline woken (finished at result) = IsAccepted deadline at result

error-IsTurn :
    (deadline woken at interval : ℕ) (code : String)
    → woken ≤ at
    → min_poll_interval ≤ interval
    → IsTurn deadline woken (after_error at interval code)
unfolding after_error max_duration
error-IsTurn deadline woken at interval code late slow = ground (arith, late, slow)

accept-IsAccepted :
    (decoders : Decoders) (deadline at : ℕ) (r : Response)
    → suc at ≤ deadline
    → IsAccepted deadline at (accept decoders r)
unfolding accept
accept-IsAccepted decoders deadline at r early = elim (Result-cases (decoders.token (text_of r))) [
  | inr (e, failed) ↦ rw failed tt
  | inl (token, decoded) ↦ rw decoded elim (Result-cases (validate_token token)) [
    | inr (e, refused) ↦ rw refused tt
    | inl (_, valid) ↦ rw valid (early, valid)
  ]
]

read_error-IsTurn :
    (decoders : Decoders) (deadline woken at interval : ℕ) (r : Response)
    → woken ≤ at
    → min_poll_interval ≤ interval
    → IsTurn deadline woken (read_error decoders at interval r)
unfolding read_error
read_error-IsTurn decoders deadline woken at interval r late slow =
    elim (Result-cases (decoders.error_code (text_of r))) [
      | inr (e, failed) ↦ rw (failed, read_error) tt
      | inl (code, decoded) ↦
          rw (decoded, read_error) (error-IsTurn deadline woken at interval code late slow)
    ]

body-IsTurn :
    (decoders : Decoders) (deadline woken at interval : ℕ) (r : Response)
    → suc at ≤ deadline
    → woken ≤ at
    → min_poll_interval ≤ interval
    → IsTurn deadline woken (read_body decoders at interval r)
unfolding read_body
body-IsTurn decoders deadline woken at interval r early late slow =
    let accepted = accept-IsAccepted decoders deadline at r early in
    let refused = read_error-IsTurn decoders deadline woken at interval r late slow in
    if_rule (IsTurn deadline woken) (is_success r.status) _ _ (λ _. accepted)
      λ _. if_rule (IsTurn deadline woken) (eqb r.status 400) _ _ (λ _. refused) (λ _. tt)

response-IsTurn :
    (decoders : Decoders) (deadline woken sent_at read_at interval : ℕ) (reply : Reply)
    (r : Response)
    → woken ≤ sent_at
    → sent_at ≤ read_at
    → min_poll_interval ≤ interval
    → IsTurn deadline woken (after_response decoders deadline sent_at read_at interval reply r)
unfolding after_response slowed
response-IsTurn decoders deadline woken sent_at read_at interval reply r sent read slow =
    let reads : leb deadline read_at ≡ false
        → IsTurn deadline woken (read_body decoders read_at interval r) =
      λ early.
        body-IsTurn decoders deadline woken read_at interval r (ground arith) (omega arith) slow in
    if_rule (IsTurn deadline woken) (eqb r.status 429) _ _ (λ _. (sent, ground arith))
      λ _. if_rule (IsTurn deadline woken) (leb deadline read_at) _ _ (λ _. tt) reads

pub sent-IsTurn :
    (decoders : Decoders) (deadline woken interval : ℕ) (reply : Reply)
    (outcome : Result String Response)
    → min_poll_interval ≤ interval
    → IsTurn deadline woken (on_sent decoders deadline woken interval reply outcome)
unfolding on_sent
sent-IsTurn decoders deadline woken interval reply (err e) slow = tt
sent-IsTurn decoders deadline woken interval reply (ok r) slow =
    response-IsTurn decoders deadline woken _ _ interval reply r (omega arith) (omega arith) slow
