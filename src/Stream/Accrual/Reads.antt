-- ===== src/Stream/Accrual/Reads.antt =====
-- The advice to clients at the end of contracts/stream/src/accrual.rs: stale reads, entries that
-- cannot be read, and retried withdrawals.
use perpetua_contracts.Prelude.{ℕ, ◌+◌, ◌-◌, ◌≤◌, ◌≡◌, ◌↔◌, Bool, arith, leb, ltb, if◌then◌else◌}
use perpetua_contracts.Prelude.Int.{ℤ, pos, negsuc, ◌-ℤ◌, ltb_ℤ}
use perpetua_contracts.I128.{i128_max}
use perpetua_contracts.Stream.Host.{World}
use perpetua_contracts.Stream.Storage.{stream_exists, next_stream_id}

pub data ReadFreshness : Type 0 where
  fresh : ReadFreshness
  -- the ledgers by which the read is behind
  stale : ℕ → ReadFreshness

unfoldable pub classify_read : ℕ → ℕ → ReadFreshness
classify_read observed_ledger required_ledger =
    if leb required_ledger observed_ledger
    then ReadFreshness.fresh
    else ReadFreshness.stale (required_ledger - observed_ledger)

pub data Recovery : Type 0 where
  none restore_footprint never_existed : Recovery

unfoldable pub recovery_for : Bool → ℕ → ℕ → Recovery
recovery_for present stream_id next_stream_id =
    if present
    then Recovery.none
    else if ltb stream_id next_stream_id
    then Recovery.restore_footprint
    else Recovery.never_existed

unfoldable pub stream_recovery : World → ℕ → Recovery
unfolding recovery_for
stream_recovery w id = recovery_for (stream_exists w id) id (next_stream_id w)

-- `i128::saturating_sub`
unfoldable pub saturating_sub : ℤ → ℤ → ℤ
saturating_sub a b =
    let d = a -ℤ b in
    if ltb_ℤ (pos i128_max) d
    then pos i128_max
    else if ltb_ℤ d (negsuc i128_max)
    then negsuc i128_max
    else d

unfoldable pub remaining_to_apply : ℤ → ℤ → ℤ
unfolding saturating_sub
remaining_to_apply requested_total withdrawn =
    let d = saturating_sub requested_total withdrawn in if ltb_ℤ d (pos 0) then pos 0 else d

-- A retried withdrawal is never paid twice: what remains to apply is the difference, or nothing,
-- and once it is applied nothing remains.
pub replay_pays_nothing :
    (requested applied : ℕ)
    → requested ≤ i128_max
    → applied ≤ i128_max
    → (k : ℕ) × (remaining_to_apply (pos requested) (pos applied) ≡ pos k)
      × (applied ≤ requested → applied + k ≡ requested)
      × (remaining_to_apply (pos requested) (pos (applied + k)) ≡ pos 0)
unfolding remaining_to_apply ◌-ℤ◌
replay_pays_nothing requested applied h k =
    (requested - applied, ground arith, λ le. omega (arith, le), ground arith)

-- A read is fresh exactly if it is not behind, and a stale one says by how much.
pub classify_read_lem :
    (observed required : ℕ)
    → ((classify_read observed required ≡ ReadFreshness.fresh) ↔ (required ≤ observed))
      × ((n : ℕ)
          → classify_read observed required ≡ ReadFreshness.stale n
          → observed + n ≡ required)
unfolding classify_read
classify_read_lem observed required = ((λ e. ground arith, λ le. ground arith), λ n e. ground arith)
