-- ===== src/Tunnel.antt =====
-- crates/edison-stdiod/src/tunnel.rs: the broker that children send through, and how the end of a
-- connection is classified.
use stdiod.Base.{
  ℕ, String, Bool, true, false, Option, none, some, List, ◌++◌, [], ◌∷◌, ◌||◌, if◌then◌else◌, eqb,
}
use stdiod.Base.Text.{trim, eq_ignore_ascii_case, has_prefix_lower, is_blank}
use stdiod.Protocol.{TunnelFrame}

-- A channel's sending half: what was queued on it, and whether its receiver is gone.
pub record Sender : Type 0 where
  pub is_closed : Bool
  pub queued : List TunnelFrame

pub record OutgoingHandle : Type 0 where
  pub inner : Option Sender

unfoldable pub set : Sender → OutgoingHandle → OutgoingHandle
set tx h = record { inner = some tx }

unfoldable pub clear : OutgoingHandle → OutgoingHandle
clear h = record { inner = none }

-- The frame is queued on the current sender, or dropped.
unfoldable pub send : TunnelFrame → OutgoingHandle → OutgoingHandle × Bool
send frame h = elim h.inner [
  | none ↦ (h, false)
  | some tx ↦
      if tx.is_closed
      then (h, false)
      else (record { inner = some (record tx { queued = tx.queued ++ frame ∷ [] }) }, true)
]

-- The frames that a handle's current sender holds.
abbrev pub frames : OutgoingHandle → List TunnelFrame
frames h = elim h.inner [ none ↦ [] | some tx ↦ tx.queued ]

pub data ConnectError : Type 0 where
  auth_rejected upgrade_rejected : ℕ → ConnectError
  other : String → ConnectError

-- How the WebSocket upgrade ends without a stream: an HTTP status, or another failure.
pub data UpgradeFailure : Type 0 where
  http_status : ℕ → UpgradeFailure
  failure : String → UpgradeFailure

unfoldable pub connect_error : UpgradeFailure → ConnectError
connect_error (http_status status) =
    if eqb status 401 || eqb status 403 then auth_rejected status else upgrade_rejected status
connect_error (failure message) = other message

unfoldable pub connect_needs_reauth : ConnectError → Bool
connect_needs_reauth (auth_rejected status) = true
connect_needs_reauth (upgrade_rejected status) = false
connect_needs_reauth (other message) = false

pub data SessionCloseError : Type 0 where
  client_credential_revoked : SessionCloseError
  protocol_version_mismatch : String → SessionCloseError
  closed : ℕ → String → SessionCloseError

unfoldable pub close_needs_reauth : SessionCloseError → Bool
close_needs_reauth client_credential_revoked = true
close_needs_reauth (protocol_version_mismatch reason) = false
close_needs_reauth (closed c reason) = false

unfoldable pub needs_upgrade : SessionCloseError → Bool
needs_upgrade client_credential_revoked = false
needs_upgrade (protocol_version_mismatch reason) = true
needs_upgrade (closed c reason) = false

-- `CloseCode::Policy`
abbrev pub policy : ℕ
policy = 1008

unfoldable pub session_close_error : ℕ → String → SessionCloseError
session_close_error c reason =
    let normalized = trim reason in
    if eqb c policy
    then if eq_ignore_ascii_case normalized "client credential revoked"
        || eq_ignore_ascii_case normalized "client installation revoked"
      then client_credential_revoked
      else if has_prefix_lower "protocol_version mismatch" normalized
      then protocol_version_mismatch reason
      else closed c reason
    else closed c reason

-- A message of the stream, as the receive loop tells them apart.
pub data Message : Type 0 where
  text_frame : TunnelFrame → Message
  not_json bad_frame control : Message
  close : Option (ℕ × String) → Message
  recv_failed : Message

pub data SessionError : Type 0 where
  closed_by_backend : SessionCloseError → SessionError
  recv_error : SessionError

-- The receive loop of `run_frame_loop`: the frames handed to the consumer, and how the loop ends.
-- `room` counts the frames after which the consumer is gone; the stream may also simply end.
unfoldable pub recv_loop : ℕ → List Message → List TunnelFrame × Option SessionError
recv_loop room [] = ([], none)
recv_loop room (recv_failed ∷ more) = ([], some recv_error)
recv_loop room (close none ∷ more) = ([], none)
recv_loop room (close (some (c, reason)) ∷ more) =
    ([], if is_blank reason then none else some (closed_by_backend (session_close_error c reason)))
recv_loop ℕ.zero (text_frame f ∷ more) = ([], none)
recv_loop (ℕ.suc room) (text_frame f ∷ more) = let (fs, e) = recv_loop room more in (f ∷ fs, e)
recv_loop room (not_json ∷ more) = recv_loop room more
recv_loop room (bad_frame ∷ more) = recv_loop room more
recv_loop room (control ∷ more) = recv_loop room more
