-- ===== src/Auth/Poll.antt =====
-- crates/edison-stdiod/src/auth.rs: `poll_with_sleep`, in nanoseconds. The world says by how much each
-- sleep runs over, what the backend answers, and how long that takes.
use Prim.Native.Char.{code}
use stdiod.Base.{
  ℕ, zero, suc, ◌+◌, ◌-◌, ◌*◌, ◌/◌, max, min, String, Bool, ◌&&◌, Option, none, some, List, [], ◌∷◌,
  value_or, Result, ok, err, map_err, ◌>>=◌, ◌>>◌, if◌then◌else◌, eqb, leb, ltb, ◌==◌,
}
use stdiod.Base.Text.{append}
use stdiod.Protocol.{text, object, end, field}
use stdiod.Http.{Request, Response, is_success, text_of, request_failed, bad_status, not_decoded}
use stdiod.Auth.{
  AuthError, http, access_denied, expired, backend_rejected, DeviceCodeResponse,
  DeviceTokenResponse, validate_token, client_id, post,
}

abbrev pub second : ℕ
second = 1000000000

abbrev pub slow_down_increment : ℕ
slow_down_increment = 5 * second

abbrev pub min_poll_interval : ℕ
min_poll_interval = 5 * second

-- `Duration::MAX`
unfoldable pub max_duration : ℕ
max_duration = 18446744073709551615999999999

-- The digits of a `u64`, read from the left; `none` on another character and on an overflow.
unfoldable pub parse_digits : ℕ → String → Option ℕ
parse_digits value String.[] = some value
parse_digits value (String.◌∷◌ c s) =
    let next = value * 10 + (code c - 48) in
    let rest = parse_digits next s in
    if leb 48 (code c) && leb (code c) 57 && ltb next 18446744073709551616 then rest else none

-- `parse::<u64>()`, which takes a leading `+`.
unfoldable pub parse_u64 : String → Option ℕ
parse_u64 String.[] = none
parse_u64 (String.◌∷◌ c s) =
    if eqb (code c) 43 && not_empty s then parse_digits 0 s else parse_digits 0 (String.◌∷◌ c s)
  where
    not_empty : String → Bool
    not_empty String.[] = Bool.false
    not_empty (String.◌∷◌ d t) = Bool.true

-- The wait that a `Retry-After` header asks for: seconds, or a date, which `parse_date` turns into
-- nanoseconds of the clock that `utc` is read from.
unfoldable pub retry_after : (String → Option ℕ) → ℕ → Option String → Option ℕ
retry_after parse_date utc none = none
retry_after parse_date utc (some value) = elim (parse_u64 value) [
  | some seconds ↦ some (seconds * second)
  | none ↦ elim (parse_date value) [
    | none ↦ none
    | some retry_at ↦ if ltb retry_at utc then none else some (retry_at - utc)
  ]
]

-- What the backend answers to one poll: the outcome of the request, how long it takes, how long
-- reading the body takes after it, and the wall clock between the two.
pub record Reply : Type 0 where
  pub sent : Result String Response
  pub send_time : ℕ
  pub text_time : ℕ
  pub utc : ℕ

pub record World : Type 0 where
  pub late : ℕ → ℕ
  pub replies : ℕ → Reply

-- How one turn of the loop ends, and when.
pub data Turn : Type 0 where
  again : (now interval : ℕ) → Turn
  finished : (now : ℕ) → Result AuthError DeviceTokenResponse → Turn

-- The sleeps and requests of a poll, its result, and when it returned.
pub record Polled : Type 0 where
  pub sleeps : List ℕ
  pub requests : List Request
  pub result : Result AuthError DeviceTokenResponse
  pub finished_at : ℕ

unfoldable pub poll_path : String
poll_path = "/api/v1/auth/device/token"

unfoldable pub operation : String
operation = append "POST " poll_path

-- The error codes of a poll that the backend refused.
unfoldable pub after_error : ℕ → ℕ → String → Turn
after_error now interval code =
    if code == "authorization_pending"
    then again now interval
    else if code == "slow_down"
    then again now (min (interval + slow_down_increment) max_duration)
    else finished now (
        err (
          if code == "access_denied"
          then access_denied
          else if code == "expired_token"
          then expired
          else backend_rejected))

-- The decoders of the two bodies, and of a date.
pub record Decoders : Type 0 where
  pub token : String → Result String DeviceTokenResponse
  pub error_code : String → Result String String
  pub date : String → Option ℕ

-- A poll that ends without another request.
abbrev pub too_late : List ℕ → ℕ → Polled
too_late sleeps at = record {
  sleeps = sleeps;
  requests = [];
  result = err expired;
  finished_at = at;
}

-- A poll that ends with this turn, and one that goes on after it.
unfoldable pub last_turn : Request → ℕ → ℕ → Result AuthError DeviceTokenResponse → Polled
last_turn ask interval at result = record {
  sleeps = interval ∷ [];
  requests = ask ∷ [];
  result = result;
  finished_at = at;
}

unfoldable pub after_turn : Request → ℕ → Option Polled → Option Polled
after_turn ask interval none = none
after_turn ask interval (some p) =
    some (record p { sleeps = interval ∷ p.sleeps; requests = ask ∷ p.requests })

unfoldable pub on_turn : Request → ℕ → (ℕ → ℕ → Option Polled) → Turn → Option Polled
on_turn ask interval more (finished at result) = some (last_turn ask interval at result)
on_turn ask interval more (again at longer) = after_turn ask interval (more at longer)

module _ (decoders : Decoders) where
  -- A success: the token is decoded and validated.
  unfoldable pub accept : Response → Result AuthError DeviceTokenResponse
  accept r =
      map_err (λ e. http (not_decoded operation r.status e)) (decoders.token (text_of r))
      >>= λ token. validate_token token >> ok token

  -- A refusal: its error code is decoded.
  unfoldable pub read_error : ℕ → ℕ → Response → Turn
  read_error now interval r = elim (decoders.error_code (text_of r)) [
    | err e ↦ finished now (err (http (not_decoded operation r.status e)))
    | ok code ↦ after_error now interval code
  ]

  -- The answer once its body is read.
  unfoldable pub read_body : ℕ → ℕ → Response → Turn
  read_body now interval r =
      if is_success r.status
      then finished now (accept r)
      else if eqb r.status 400
      then read_error now interval r
      else finished now (err (http (bad_status operation r.status (text_of r))))

  -- The interval after a response that says that there were too many requests.
  unfoldable pub slowed : ℕ → Reply → Response → ℕ
  slowed interval reply r =
      max (max (value_or (retry_after decoders.date reply.utc r.retry_after) interval) interval)
        min_poll_interval

  -- A response whose head came at `sent_at` and whose body at `read_at`.
  unfoldable pub after_response : ℕ → (sent_at read_at : ℕ) → ℕ → Reply → Response → Turn
  after_response deadline sent_at read_at interval reply r =
      if eqb r.status 429
      then again sent_at (slowed interval reply r)
      else if leb deadline read_at
      then finished read_at (err expired)
      else read_body read_at interval r

  -- The outcome of the request, sent when the sleep ended at `woken`.
  unfoldable pub on_sent : ℕ → ℕ → ℕ → Reply → Result String Response → Turn
  on_sent deadline woken interval reply (err e) =
      finished (woken + reply.send_time) (err (http (request_failed operation e)))
  on_sent deadline woken interval reply (ok r) =
      let sent_at = woken + reply.send_time in
      after_response deadline sent_at (sent_at + reply.text_time) interval reply r

  -- The part of the loop after the sleep.
  unfoldable pub after_sleep : ℕ → ℕ → ℕ → Reply → Turn
  after_sleep deadline woken interval reply = on_sent deadline woken interval reply reply.sent

  module _ (world : World) (ask : Request) (deadline : ℕ) where
    -- The loop, `turn` requests after its start. `none` is fuel that ran out.
    unfoldable pub poll_loop : (fuel turn now interval : ℕ) → Option Polled
    poll_loop zero turn now interval = none
    poll_loop (suc fuel) turn now interval =
        if leb deadline now
        then some (too_late [] now)
        else if leb (deadline - now) interval
        then some (too_late ((deadline - now) ∷ []) (deadline + world.late turn))
        else on_turn ask interval (λ at longer. poll_loop fuel (suc turn) at longer)
            (after_sleep deadline (now + interval + world.late turn) interval (world.replies turn))

  -- The JSON of a `DeviceTokenRequest`.
  unfoldable pub token_request : String → String → String → Request
  token_request base device_code verifier = post base poll_path none (
      some (
        object (
          field "client_id" (text client_id)
            (field "device_code" (text device_code) (field "code_verifier" (text verifier) end)))))

  -- `poll`, started at `now`, with fuel for all the intervals before the deadline. `latest` is the
  -- last time that an `Instant` can hold.
  unfoldable pub poll :
      World → String → (latest now : ℕ) → DeviceCodeResponse → String → Option Polled
  poll world base latest now answer verifier =
      let deadline = now + answer.expires_in * second in
      if ltb latest deadline
      then some (too_late [] now)
      else poll_loop world (token_request base answer.device_code verifier) deadline
          (answer.expires_in / 5 + 1) 0 now (max (answer.interval * second) min_poll_interval)
