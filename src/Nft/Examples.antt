-- ===== src/Nft/Examples.antt =====
-- A run of the stream NFT, and its properties applied to it.
use perpetua_contracts.Prelude.{ℕ, ◌≡◌, true, not, ◌==◌, some, refl, if◌then◌else◌, ltb}
use perpetua_contracts.Prelude.Int.{◌*ℤ◌}
use perpetua_contracts.I128.{checked_mul}
use perpetua_contracts.Outcome.{done, failed, trap}
use perpetua_contracts.Stream.Error.{ok}
use perpetua_contracts.Stream.Types.{Stream, transferable, flags_from_parts}
use perpetua_contracts.Stream.Host.{World, Payload, token_transfer}
use perpetua_contracts.Stream.Storage.{
  next_stream_id, allocate_stream_id, save_stream, extend_stream, extend_instance, load_stream,
}
use perpetua_contracts.Stream.Events
use perpetua_contracts.Stream.Lifecycle.{create_stream}
use perpetua_contracts.Stream.Recipient
use perpetua_contracts.Stream.Contract
use perpetua_contracts.Stream.Examples.{env_at, opened}
use perpetua_contracts.Nft.Token.{
  Env, Store, Outcome, init, credit, debit, mint, transfer, transfer_claim,
}
use perpetua_contracts.Nft.Linked.{linked, transfer_moves_claim}
use perpetua_contracts.Nft.Tally.{IsTally}
use perpetua_contracts.Nft.Soundness.{Call, perform, deployed, Reach, reachable-IsTally}

-- The stream contract stands at address 100, and account 2, its recipient, calls.
abbrev env : Env
env = record {
  sequence = 1000;
  max_ttl = 6312000;
  min_ttl = 4096;
  extended = λ ttl threshold extend_to. if ltb ttl threshold then extend_to else ttl;
  caller = 2;
  authorized = λ who. not (who == 100);
  transfer_recipient = λ contract id to. some true;
}

abbrev store_after : Outcome Store → Store
store_after (done s) = s
store_after (failed code) = deployed
store_after trap = deployed

abbrev bound : Store
bound = store_after (perform env (Call.init 100 "Perpetua Stream" "PSTREAM") deployed)

binds : perform env (Call.init 100 "Perpetua Stream" "PSTREAM") deployed ≡ done bound
unfolding perform init
binds = refl

abbrev minted : Store
minted = store_after (perform env (Call.mint 0) bound)

mints : perform env (Call.mint 0) bound ≡ done minted
unfolding perform init mint credit
mints = refl

reachable-IsTally_example : IsTally minted
reachable-IsTally_example = reachable-IsTally (
    Reach.call env (Call.mint 0) minted
      (Reach.call env (Call.init 100 "Perpetua Stream" "PSTREAM") bound Reach.start binds) mints)

abbrev moved : Store
moved = store_after (transfer (linked env (env_at 6) opened) 0 4 minted)

moves : transfer (linked env (env_at 6) opened) 0 4 minted ≡ done moved
unfolding perform init mint credit debit transfer transfer_claim Contract.perform create_stream
    allocate_stream_id next_stream_id save_stream extend_stream extend_instance token_transfer
    Events.stream_created checked_mul ◌*ℤ◌ Recipient.transfer_recipient transferable load_stream
    Events.recipient_transferred flags_from_parts
moves = refl

transfer_moves_claim_example :
    (from : ℕ) × (stream : Stream) × (w' : World) × (minted.owner 0 ≡ some from)
    × (env.authorized from ≡ true)
    × (moved.owner 0 ≡ some 4)
    × (opened.streams 0 ≡ some stream)
    × ((env_at 6).authorized stream.sender (Payload.address_args 0 4) ≡ true)
    × (transferable stream ≡ true)
    × (Recipient.transfer_recipient (env_at 6) 0 4 opened ≡ ok w')
    × (w'.streams 0 ≡ some (record stream { recipient = 4 }))
transfer_moves_claim_example = transfer_moves_claim env (env_at 6) 0 4 minted moved opened moves
