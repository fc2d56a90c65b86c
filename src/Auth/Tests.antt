-- ===== src/Auth/Tests.antt =====
-- The theorems on the device authorization at a backend that answers after one refusal.
use stdiod.Base.{
  ℕ, ◌*◌, ◌+◌, ◌≤◌, suc, ◌≡◌, refl, Option, none, some, [], ◌∷◌, ok, err, All, length,
  if◌then◌else◌, eqb, ◌==◌,
}
use stdiod.Http.{Response, is_success, text_of}
use stdiod.Auth.{DeviceCodeResponse, DeviceTokenResponse, validate_token}
use stdiod.Base.Text.{eq_ignore_ascii_case, lower_code}
use stdiod.Auth.Poll.{
  Decoders, World, Polled, poll, second, token_request, poll_loop, on_turn, after_sleep, on_sent,
  after_response, read_body, read_error, after_error, after_turn, max_duration, last_turn, accept,
}
use stdiod.Auth.Turns.{total}
use stdiod.Auth.Deadline.{poll-terminates, poll-validate_token}

abbrev token : DeviceTokenResponse
token = record {
  access_token = "token";
  token_type = "bearer";
  client_installation_id = "install-1";
  device_id = "device-1";
  scope = "tunnel:connect" ∷ [];
  user_id = "user-1";
  org_id = "org-1";
}

abbrev decoders : Decoders
decoders = record {
  token = λ body. if body == "token" then ok token else err "not a token";
  error_code = λ body. ok body;
  date = λ header. none;
}

abbrev answer : ℕ → Response
answer n =
    if eqb n 0
    then record { status = 400; body = some "slow_down"; retry_after = none }
    else record { status = 200; body = some "token"; retry_after = none }

abbrev world : World
world = record {
  late = λ n. 3;
  replies = λ n. record { sent = ok (answer n); send_time = 10; text_time = 1; utc = 0 };
}

abbrev device_code : DeviceCodeResponse
device_code = record {
  device_code = "device-code";
  user_code = "ABCD";
  verification_uri = "https://edison.test/activate";
  verification_uri_complete = "https://edison.test/activate?code=ABCD";
  expires_in = 60;
  interval = 1;
}

abbrev polled : Option Polled
polled = poll decoders world "https://edison.test" (100 * second) 0 device_code "verifier"

poll-terminates_example :
    (p : Polled) × (polled ≡ some p)
    × (5 * length p.requests ≤ 60)
    × (total p.sleeps ≤ 60 * second)
    × All
        (λ r. r ≡ token_request decoders "https://edison.test" "device-code" "verifier")
        p.requests
poll-terminates_example =
    poll-terminates decoders world "https://edison.test" (100 * second) 0 device_code "verifier"

-- What the poll comes to: two requests, five and ten seconds after the one before.
abbrev finish : Polled
finish = record {
  sleeps = 5 * second ∷ 10 * second ∷ [];
  requests =
      token_request decoders "https://edison.test" "device-code" "verifier"
      ∷ token_request decoders "https://edison.test" "device-code" "verifier"
      ∷ [];
  result = ok token;
  finished_at = 15 * second + 28;
}

poll-validate_token_example :
    (validate_token token ≡ ok tt) × (suc finish.finished_at ≤ 0 + 60 * second)
unfolding poll poll_loop on_turn after_sleep on_sent after_response read_body is_success read_error
    after_error text_of after_turn max_duration last_turn accept validate_token eq_ignore_ascii_case
    lower_code
poll-validate_token_example =
    poll-validate_token decoders world "https://edison.test" (100 * second) 0 device_code "verifier"
      finish token refl refl
