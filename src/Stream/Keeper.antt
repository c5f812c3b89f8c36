-- ===== src/Stream/Keeper.antt =====
-- The views and the permissionless maintenance calls of contracts/stream/src/lib.rs. A view leaves
-- the state as it is, so it is a function of it.
use perpetua_contracts.Prelude.{
  ℕ, ◌+◌, ◌-◌, ◌||◌, List, [], ◌∷◌, none, some, leb, if◌then◌else◌, update,
}
use perpetua_contracts.Prelude.Int.{ℤ}
use perpetua_contracts.Stream.Error.{Result, ok, ◌>>=◌}
use perpetua_contracts.Stream.Types.{Stream}
use perpetua_contracts.Stream.Accrual.{vested, withdrawable, refundable}
use perpetua_contracts.Stream.Host.{Env, World, live_until}
use perpetua_contracts.Stream.Storage.{
  peek_stream, extend_stream, extend_instance, ttl_target_ledgers, ttl_target_ledgers_at,
}
use perpetua_contracts.Stream.Events
use perpetua_contracts.Stream.Batch.Preflight.{RawValue, preflight}

unfoldable pub get_stream : ℕ → World → Result Stream
unfolding peek_stream
get_stream id w = peek_stream id w

abbrev pub read_stream : (Stream → Result ℤ) → ℕ → World → Result ℤ
read_stream f id w = peek_stream id w >>= f

unfoldable pub withdrawable_of : Env → ℕ → World → Result ℤ
withdrawable_of env id w = read_stream (λ s. withdrawable s env.now) id w

unfoldable pub vested_of : Env → ℕ → World → Result ℤ
vested_of env id w = read_stream (λ s. vested s env.now) id w

unfoldable pub refundable_of : Env → ℕ → World → Result ℤ
refundable_of env id w = read_stream (λ s. refundable s env.now) id w

unfoldable pub extend_stream_ttl : Env → ℕ → World → Result (ℕ × World)
extend_stream_ttl env id w = do
  s ← peek_stream id w
  let target = ttl_target_ledgers env s
  let w = extend_stream env id s w
  let w = extend_instance env w
  ok (target, Events.ttl_extended id target w)

abbrev pub extend_to : Env → ℕ → ℕ → World → World
extend_to env id target w = record w {
  stream_live_until =
      update w.stream_live_until id (live_until env (w.stream_live_until id) target target);
}

-- One round of the sweep, with the number of entries extended, 0 or 1. An entry that is not there
-- or lives long enough is passed over.
unfoldable pub sweep_one : Env → ℕ → World → ℕ × World
sweep_one env id w = elim (w.streams id) [
  | none ↦ (0, w)
  | some s ↦
      let current_ttl = w.stream_live_until id - env.sequence in
      let target = ttl_target_ledgers_at env s env.now in
      if leb env.max_ttl current_ttl || leb target current_ttl
      then (0, w)
      else (1, Events.ttl_extended id target (extend_to env id target w))
]

unfoldable pub sweep : Env → List ℕ → ℕ → World → ℕ × World
sweep env [] extended w = (extended, w)
sweep env (id ∷ ids) extended w = let (n, w) = sweep_one env id w in sweep env ids (extended + n) w

unfoldable pub batch_extend_ttl : Env → List RawValue → World → Result (ℕ × World)
batch_extend_ttl env raws w = do
  ids ← preflight raws
  let (extended, w) = sweep env ids 0 w
  ok (extended, extend_instance env w)
