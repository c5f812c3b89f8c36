-- ===== src/Stream/Batch.antt =====
-- The batch entry points of contracts/stream/src/lib.rs that pay and that reassign.
pub mod Preflight
use perpetua_contracts.Prelude.{ℕ, ◌+◌, not, List, [], ◌∷◌, ⊤, ◌==◌, if◌then◌else◌}
use perpetua_contracts.Prelude.Int.{ℤ, pos, ltb_ℤ, eq_ℤ}
use perpetua_contracts.Stream.Error.{Error, Result, ok, err, ◌>>=◌, ◌>>◌, fail_if, trap}
use perpetua_contracts.Stream.Types.{Address, Stream, transferable}
use perpetua_contracts.Stream.Host.{Env, World, Payload, require_auth, token_transfer}
use perpetua_contracts.Stream.Storage.{extend_stream, save_stream}
use perpetua_contracts.Stream.Events
use perpetua_contracts.Stream.Lifecycle.{bump_instance_ttl, apply_withdrawal}
use perpetua_contracts.Stream.Recipient.{is_spent}
use Preflight.{RawValue, Payout, preflight, resolve, peek_all}

unfoldable pub pay_one : Env → Payout → World → Result World
pay_one env p w =
    if eq_ℤ p.payout (pos 0)
    then ok (extend_stream env p.id p.stream w)
    else apply_withdrawal env p.id p.stream p.payout w

unfoldable pub pay_all : Env → List Payout → World → Result World
pay_all env [] w = ok w
pay_all env (p ∷ ps) w = do w ← pay_one env p w; pay_all env ps w

unfoldable pub batch_withdraw : Env → Address → List RawValue → World → Result (ℤ × World)
batch_withdraw env recipient raws w = do
  ids ← preflight raws
  require_auth env recipient (Payload.batch_args ids)
  (payouts, total) ← resolve recipient env.now w ids (pos 0)
  w ← pay_all env payouts w
  ok (total, (if ltb_ℤ (pos 0) total then bump_instance_ttl env w else w))

-- One round of the second loop of `batch_transfer_recipient`.
unfoldable pub transfer_one : Env → Address → Address → ℕ → Stream → World → Result World
transfer_one env sender new_recipient id s w = do
  fail_if (not (transferable s)) Error.not_transferable
  fail_if (is_spent s) Error.stream_terminated
  fail_if (not (s.sender == sender)) Error.unauthorized
  fail_if (new_recipient == s.sender) Error.self_stream
  fail_if (s.recipient == new_recipient) Error.repeated_transfer
  let w = save_stream env id (record s { recipient = new_recipient }) w
  ok (Events.recipient_transferred id s.recipient new_recipient w)

unfoldable pub transfer_all :
    Env → Address → Address → List (ℕ × Stream) → ℕ → World → Result (ℕ × World)
transfer_all env sender new_recipient [] transferred w = ok (transferred, w)
transfer_all env sender new_recipient ((id, s) ∷ rest) transferred w = do
  w ← transfer_one env sender new_recipient id s w
  transfer_all env sender new_recipient rest (transferred + 1) w

-- `get_unchecked(0)` of the vector, which preflight has found not to be empty.
abbrev pub first_sender : List (ℕ × Stream) → Result Address
first_sender [] = trap
first_sender ((id, s) ∷ rest) = ok s.sender

unfoldable pub batch_transfer_recipient : Env → List RawValue → Address → World → Result (ℕ × World)
batch_transfer_recipient env raws new_recipient w = do
  ids ← preflight raws
  validated ← peek_all w ids
  sender ← first_sender validated
  require_auth env sender Payload.whole_call
  (transferred, w) ← transfer_all env sender new_recipient validated 0 w
  ok (transferred, bump_instance_ttl env w)
