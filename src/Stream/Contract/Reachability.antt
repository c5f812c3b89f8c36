-- ===== src/Stream/Contract/Reachability.antt =====
-- The states that sequences of calls of contracts/stream/src/lib.rs reach.
use perpetua_contracts.Prelude.{
  ℕ, ◌+◌, ◌≤◌, ◌-◌, ◌≡◌, none, some, is_some, ltb, inl, inr, Bool-cases, arith, refl, [],
}
use perpetua_contracts.Stream.Error.{ok}
use perpetua_contracts.Stream.Types.{Address, Stream, StreamStatus}
use perpetua_contracts.Stream.Host.{Env, World}
use perpetua_contracts.Stream.Storage.{next_stream_id, stream_exists, stream_count}
use perpetua_contracts.Stream.Accrual.{vested, refundable, withdrawable}
use perpetua_contracts.Stream.Accrual.Vesting.{earned, earned-le, vested_value}
use perpetua_contracts.Stream.Accrual.Invariants.{refundable_value, withdrawable_value}
use perpetua_contracts.Stream.Lifecycle.{status_eq}
use perpetua_contracts.Stream.Invariant.Valid.{advance-IsValid}
use perpetua_contracts.Prelude.Int.{pos}
use perpetua_contracts.Stream.Invariant.Books.{total_owed, paid_in, paid_out}
use perpetua_contracts.Stream.Invariant.Sound.{IsSound, Keeps-IsSound}
use perpetua_contracts.Stream.Contract.{Call, perform, HostRules}
use perpetua_contracts.Stream.Contract.Soundness.{perform-IsSound}

-- The storage of a contract that has been deployed and not yet called.
abbrev pub deployed : World
deployed = record {
  next_id = none;
  instance_live_until = 0;
  streams = λ _. none;
  stream_live_until = λ _. 0;
  delegates = λ _ _. none;
  delegate_live_until = λ _ _. 0;
  transfers = [];
  events = [];
}

-- `Reach self t w`: calls of the contract at `self`, in any order, by anyone and with any answers
-- of the token, the last of them at the instant `t`, have led to `w`. Time never runs backwards.
pub data Reach (self : Address) : ℕ → World → Type 0 where
  start : Reach self 0 deployed
  step :
      {t : ℕ} {w : World} (before : Reach self t w) (env : Env) (c : Call) (w' : World)
      → env.self ≡ self
      → t ≤ env.now
      → HostRules env
      → perform env c w ≡ ok w'
      → Reach self env.now w'

pub deployed-IsSound : (self : Address) → IsSound self 0 deployed
unfolding next_stream_id total_owed paid_in paid_out
deployed-IsSound self = record {
  valid = λ i s e. absurd (ground arith);
  issued = λ i e. ground arith;
  unissued = λ i e. refl;
  solvent = λ token. ground arith;
}

pub Reach-IsSound : (self : Address) (t : ℕ) (w : World) → Reach self t w → IsSound self t w
Reach-IsSound self _ _ Reach.start = deployed-IsSound self
Reach-IsSound self _ _ (Reach.step {t} {w} before env c w' same later rules h) =
    let v = Reach-IsSound self t w before in
    let v1 =
      Keeps-IsSound self t env.now w w later
        (record { same_streams = refl; same_ids = refl; same_transfers = refl }) v in
    rw same at (perform-IsSound env c w w' rules (rw same v1) h)

-- In every state that calls under the host's rules reach, in any order and with any answers of the
-- token, the pool is solvent: in each token, what has been paid out and what all streams are still
-- owed are together no more than what has been paid in.
pub reachable_solvent :
    (self : Address) (t : ℕ) (w : World) (token : Address)
    → Reach self t w
    → paid_out self token w.transfers + total_owed token w.streams (next_stream_id w)
      ≤ paid_in self token w.transfers
reachable_solvent self t w token r = let v = Reach-IsSound self t w r in v.solvent token

-- In every reachable state the ids are handed out one after the other: a stream is stored under an
-- id exactly if the id is below the next one.
pub reachable_ids :
    (self : Address) (t : ℕ) (w : World) (id : ℕ)
    → Reach self t w
    → stream_exists w id ≡ ltb id (stream_count w)
unfolding stream_exists stream_count
reachable_ids self t w id r =
    let v = Reach-IsSound self t w r in
    elim (Bool-cases (ltb id (next_stream_id w))) [
      | inl below ↦ ground (arith, v.issued id)
      | inr above ↦ ground (arith, v.unissued id)
    ]

-- In every reachable state the claim on each stream is defined at every later time, without
-- overflow, and never makes the stream pay more than its deposit; what is vested and what is
-- refundable then are defined too and add up to the deposit; and the stream has a pause in
-- progress exactly if it is paused.
pub reachable_claims :
    (self : Address) (t now : ℕ) (w : World) (id : ℕ) (s : Stream)
    → Reach self t w
    → w.streams id ≡ some s
    → t ≤ now
    → (a b p k : ℕ) × (vested s now ≡ ok (pos a))
      × (refundable s now ≡ ok (pos b))
      × (s.deposited ≡ pos (a + b))
      × (s.withdrawn ≡ pos p)
      × (withdrawable s now ≡ ok (pos k))
      × (p + k ≡ a)
      × (is_some s.paused_at ≡ status_eq s.status StreamStatus.paused)
reachable_claims self t now w id s r e later =
    let v = Reach-IsSound self t w r in
    let (d, p, x) = v.valid id s e in
    let y = advance-IsValid self t now s d p later x in
    (
      earned s d now,
      d - earned s d now,
      p,
      earned s d now - p,
      vested_value s d now now (omega arith) y.schedule,
      refundable_value s d now y.schedule now (omega arith),
      ground (arith, y.schedule.deposit, earned-le s d now),
      y.paid,
      withdrawable_value s d p now now (omega arith) y.schedule y.paid
          (omega (arith, y.backed, earned-le s d now)),
      omega (arith, y.backed),
      y.coherent,
    )
