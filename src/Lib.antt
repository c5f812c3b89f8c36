-- ===== src/Lib.antt =====
-- Perpetua is a set of Soroban contracts that stream payments: a sender locks a deposit with a
-- schedule, value accrues to the recipient by the second, and the recipient withdraws it. This
-- library models the streaming contract, contracts/stream/src, the factory in front of it,
-- contracts/factory/src, the governance contract that acts as an admin by vote,
-- contracts/governance/src, and the tokens that stand for streams, contracts/stream-nft/src, and
-- proves what makes them correct.
--
-- The parts and their files, with paths from the root of the repository:
-- - contracts/stream/src/accrual.rs: Stream/Accrual.antt has one function for each of the source's
--   (stream_time, duration, elapsed, cliff_reached, vested, withdrawable, refundable, liability) with
--   the checked arithmetic written out; Stream/Accrual/Reads.antt has the advice to clients.
-- - contracts/stream/src/types.rs and error.rs: Stream/Types.antt, Stream/Flag.antt, Stream/Op.antt
--   and Stream/Error.antt, which has the result type too: a value, a typed error or a trap.
-- - contracts/stream/src/storage.rs: Stream/Storage.antt, on the state `World` of Stream/Host.antt,
--   whose fields are the entries of the source's `DataKey` and the ledgers until which they live.
-- - contracts/stream/src/events.rs: Stream/Event.antt and Stream/Events.antt.
-- - contracts/stream/src/lib.rs: Stream/Lifecycle.antt (create_stream, top_up, withdraw, cancel),
--   Stream/Pausing.antt (pause, resume), Stream/Recipient.antt (transfer_recipient),
--   Stream/Batch.antt with Stream/Batch/Preflight.antt (the batch calls), Stream/Delegation.antt (the
--   grants and the calls of a delegate) and Stream/Keeper.antt (the views and the calls that renew
--   entries). Stream/Contract.antt puts the calls together as a data type `Call` with `perform`.
-- - contracts/factory/src/lib.rs, the policy in front of the creation of streams: Factory/Types.antt,
--   Factory/Host.antt (its storage), Factory/Admin.antt (init and the hand-over of the admin),
--   Factory/Policy.antt (the setters and the views), Factory/Limits.antt (the creation bucket),
--   Factory/Creation.antt (create_stream and stream_terminated) and Factory/Contract.antt, which puts
--   the calls together. The stream contract that it invokes is a parameter of the call, and
--   Launch.antt puts the model of the streaming contract there.
-- - contracts/governance/src/lib.rs, the board of signers whose proposals call other contracts:
--   Governance/Types.antt, Governance/Host.antt (its storage), Governance/Storage.antt (the reads,
--   the writes and the lives of entries), Governance/Admin.antt (init, the signers, the threshold, the
--   weights, the guardians), Governance/Proposals.antt (propose, approve, execute, cancel_proposal),
--   Governance/Dispatch.antt (what an execution calls), Governance/Pruning.antt
--   (prune_expired_proposals), Governance/Views.antt and Governance/Contract.antt, which puts the
--   calls together. Governance/Lifecycle.antt is the state machine of a proposal.
-- - contracts/stream-nft/src/lib.rs, a token for each stream: Nft/Token.antt has its state and its
--   entry points, Nft/Tally.antt the count of the tokens that its balances stand for. Nft/Linked.antt
--   puts the model of the streaming contract behind a transfer.
-- - tools/provenance/src/lib.rs, which writes the manifest of a release and checks a release against
--   it: Provenance/Types.antt, Provenance/Artifacts.antt (the files and their hashes),
--   Provenance/Generate.antt and Provenance/Verify.antt. The file system, the hash, the JSON printer
--   and parser and what git and the tools say are parameters.
--
-- An entry point is a function of the environment of the call, `Env`, its arguments and the state,
-- and returns the new state; the guards stand in the order of the source. A call that fails leaves
-- no state, since the host undoes its writes. `Env` holds what is not the contract's own code, as
-- parameters: the clock and the ledger, the host's answers to `require_auth`, the token contract's answer to
-- each transfer and the lives that `extend_ttl` gives. The token is trusted only to have moved what
-- it answers `Ok` to: `transfers` is the list of those answers.
--
-- Numbers: `u64` and `u32` are naturals with their bounds written out (Words.antt), `i128` is an
-- integer with checked operations (I128.antt). An address is a number, since the code only compares
-- addresses. Every loop is a recursion on a list or on the number of ids that are left, so no fuel is
-- needed. The factory and the governance contract share the result of a call, Outcome.antt.
--
-- The proofs: Stream/Inversion/*.antt reads each call that succeeds backwards, Stream/Invariant/*.antt
-- states the invariant of a stream and of the state, Stream/Preserve/*.antt keeps it through each
-- change, Stream/Contract/*.antt through each call and each sequence of calls, and
-- Stream/Guarantee/*.antt has the promises of the single entry points. Stream/Examples.antt runs the
-- contract on a concrete state, and Stream/Examples/Witnesses.antt applies the properties there.
-- The factory has its invariant in Factory/Contract/*.antt, its promises in Factory/Guarantee.antt
-- and its runs in Factory/Examples.antt.
-- The governance contract has its invariant in Governance/Invariant.antt, kept through each call in
-- Governance/Preserve/*.antt, its calls read backwards in Governance/Inversion/*.antt, sequences of
-- calls in Governance/Contract/*.antt, its promises in Governance/Guarantee/*.antt and its runs in
-- Governance/Examples.antt. What it calls is a parameter of the execution: the XDR decoder, and
-- whether the called contract returns; the host refuses to enter a contract that is running, so that
-- no call comes back to it.
--
-- Not modelled: the archival of an entry whose life has run out (the state holds the readable
-- entries), the lives of the factory's entries and the salt it derives, the archival probe,
-- which is a test of the network, the I/O of the provenance tool and the time it prints, and the
-- clients and scripts around the contracts.
pub mod Prelude
pub mod I128
pub mod Words
pub mod Stream
pub mod Outcome
pub mod Factory
pub mod Governance
pub mod Nft
pub mod Launch
pub mod Provenance
