-- ===== src/Stream/Recipient.antt =====
-- `transfer_recipient` of contracts/stream/src/lib.rs.
use perpetua_contracts.Prelude.{ℕ, Bool, not, ◌||◌, ◌==◌}
use perpetua_contracts.Prelude.Int.{leb_ℤ}
use perpetua_contracts.Stream.Error.{Error, Result, ok, ◌>>=◌, ◌>>◌, fail_if}
use perpetua_contracts.Stream.Types.{Address, Stream, StreamStatus, transferable}
use perpetua_contracts.Stream.Host.{Env, World, Payload, require_auth}
use perpetua_contracts.Stream.Storage.{load_stream, save_stream}
use perpetua_contracts.Stream.Events
use perpetua_contracts.Stream.Lifecycle.{bump_instance_ttl, status_eq}

-- No claim is left: the stream is depleted, or a cancelled one is drawn empty.
abbrev pub is_spent : Stream → Bool
is_spent s = status_eq s.status StreamStatus.depleted || leb_ℤ s.deposited s.withdrawn

unfoldable pub transfer_recipient : Env → ℕ → Address → World → Result World
transfer_recipient env id new_recipient w = do
  (s, w) ← load_stream env id w
  require_auth env s.sender (Payload.address_args id new_recipient)
  fail_if (not (transferable s)) Error.not_transferable
  fail_if (is_spent s) Error.stream_terminated
  fail_if (new_recipient == s.sender) Error.self_stream
  fail_if (s.recipient == new_recipient) Error.repeated_transfer
  let s' : Stream = record s { recipient = new_recipient }
  let w = save_stream env id s' w
  let w = bump_instance_ttl env w
  ok (Events.recipient_transferred id s.recipient new_recipient w)
