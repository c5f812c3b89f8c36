-- ===== src/Nft/Linked.antt =====
-- A transfer of a token, contracts/stream-nft/src/lib.rs, with the streaming contract,
-- contracts/stream/src/lib.rs, behind it.
use perpetua_contracts.Prelude.{ℕ, ◌≡◌, Bool, true, Option, none, some, arith, refl}
use perpetua_contracts.Outcome.{done}
use perpetua_contracts.Stream.Error.{Result, ok, err, trap}
use perpetua_contracts.Stream.Types.{Stream, transferable}
use perpetua_contracts.Stream.Host.{World, Payload}
use perpetua_contracts.Stream.Host
use perpetua_contracts.Stream.Recipient
use perpetua_contracts.Stream.Inversion.Pausing.{transfer_recipient_inv}
use perpetua_contracts.Nft.Token.{Address, Env, Store, transfer}
use perpetua_contracts.Nft.Inversion.{transfer_inv}

-- `invoke_contract` traps if the contract that it calls fails, whatever the error.
abbrev pub answer : Result World → Option Bool
answer (ok w) = some true
answer (err e) = none
answer trap = none

-- The environment in which the stream contract answers from the state `w`.
abbrev pub linked : Env → Host.Env → World → Env
linked env stream_env w = record env {
  transfer_recipient = λ contract id to. answer (Recipient.transfer_recipient stream_env id to w);
}

answer_inv : (r : Result World) → answer r ≡ some true → (w : World) × (r ≡ ok w)
answer_inv (ok w) h = (w, refl)
answer_inv (err e) h = cc
answer_inv trap h = cc

-- Token and claim move together: if a transfer of the token succeeds, the owner of the token has
-- signed, and so has the sender of the stream, for the new recipient; the stream can be transferred;
-- and the new owner of the token is the new recipient of the stream, in which nothing else changes.
pub transfer_moves_claim :
    (env : Env) (stream_env : Host.Env) (id : ℕ) (to : Address) (s s' : Store) (w : World)
    → transfer (linked env stream_env w) id to s ≡ done s'
    → (from : Address) × (stream : Stream) × (w' : World) × (s.owner id ≡ some from)
      × (env.authorized from ≡ true)
      × (s'.owner id ≡ some to)
      × (w.streams id ≡ some stream)
      × (stream_env.authorized stream.sender (Payload.address_args id to) ≡ true)
      × (transferable stream ≡ true)
      × (Recipient.transfer_recipient stream_env id to w ≡ ok w')
      × (w'.streams id ≡ some (record stream { recipient = to }))
transfer_moves_claim env stream_env id to s s' w h =
    let r = transfer_inv (linked env stream_env w) id to s s' h in
    let (w', e) = answer_inv (Recipient.transfer_recipient stream_env id to w) r.accepted in
    let (stream, found, signed, movable, _, _, _, change) =
      transfer_recipient_inv stream_env id to w w' e in
    (
      r.from,
      stream,
      w',
      r.found,
      r.signed,
      ground (arith, r.owned),
      found,
      signed,
      movable,
      e,
      ground (arith, change.written),
    )
