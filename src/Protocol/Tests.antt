-- ===== src/Protocol/Tests.antt =====
-- The round trip of an error frame.
use stdiod.Base.{◌≡◌, some, ok}
use stdiod.Protocol.{TunnelFrame, tunnel_error, natural}
use stdiod.Protocol.Wire.{to_json}
use stdiod.Protocol.Decode.{from_json}
use stdiod.Protocol.RoundTrip.{from_json-to_json}

abbrev offline : TunnelFrame
offline = tunnel_error (record {
  server_id = some "server-1";
  related_jsonrpc_id = some (natural 7);
  error_code = "server_offline";
  message = "it has ended";
})

from_json-to_json_example : from_json (to_json offline) ≡ ok offline
from_json-to_json_example = from_json-to_json offline (λ e. cc)
