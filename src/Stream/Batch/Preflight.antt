-- ===== src/Stream/Batch/Preflight.antt =====
-- The checks that the batch entry points of contracts/stream/src/lib.rs make before they write.
-- A vector of the host holds values that may or may not decode as a `u64`.
use perpetua_contracts.Prelude.{ℕ, Bool, false, not, ◌||◌, List, [], ◌∷◌, ⊤, ltb, ◌==◌, length}
use perpetua_contracts.Prelude.Int.{ℤ}
use perpetua_contracts.I128.{checked_add}
use perpetua_contracts.Stream.Error.{Error, Result, ok, err, ◌>>=◌, ◌>>◌, fail_if, ok_or}
use perpetua_contracts.Stream.Types.{Address, Stream}
use perpetua_contracts.Stream.Accrual.{withdrawable}
use perpetua_contracts.Stream.Host.{World}
use perpetua_contracts.Stream.Storage.{peek_stream}

abbrev pub max_batch_size : ℕ
max_batch_size = 16

pub data RawValue : Type 0 where
  u64_value : ℕ → RawValue
  other_value : RawValue

unfoldable pub decode_ids : List RawValue → Result (List ℕ)
decode_ids [] = ok []
decode_ids (RawValue.u64_value id ∷ raws) = do ids ← decode_ids raws; ok (id ∷ ids)
decode_ids (RawValue.other_value ∷ raws) = err Error.malformed_stream_id

unfoldable pub validate_batch_ids : List RawValue → Result (List ℕ)
validate_batch_ids raws = do
  fail_if (length raws == 0) Error.empty_batch
  fail_if (ltb max_batch_size (length raws)) Error.batch_too_large
  decode_ids raws

-- The inner loop of `reject_duplicate_ids`: whether `id` stands again in the rest of the vector.
unfoldable pub occurs : ℕ → List ℕ → Bool
occurs id [] = false
occurs id (j ∷ ids) = id == j || occurs id ids

unfoldable pub reject_duplicate_ids : List ℕ → Result ⊤
reject_duplicate_ids [] = ok tt
reject_duplicate_ids (id ∷ ids) = do
  fail_if (occurs id ids) Error.duplicate_stream_id
  reject_duplicate_ids ids

unfoldable pub preflight : List RawValue → Result (List ℕ)
preflight raws = do ids ← validate_batch_ids raws; reject_duplicate_ids ids; ok ids

-- One stream of a batch with what it pays.
pub record Payout : Type 0 where
  pub id : ℕ
  pub stream : Stream
  pub payout : ℤ

-- The first loop of `batch_withdraw`, which only reads; `total` is the sum so far.
unfoldable pub resolve : Address → ℕ → World → List ℕ → ℤ → Result (List Payout × ℤ)
resolve recipient now w [] total = ok ([], total)
resolve recipient now w (id ∷ ids) total = do
  s ← peek_stream id w
  fail_if (not (s.recipient == recipient)) Error.unauthorized
  available ← withdrawable s now
  total' ← ok_or (checked_add total available) Error.overflow
  rest ← resolve recipient now w ids total'
  ok (record { id = id; stream = s; payout = available } ∷ rest.0, rest.1)

-- The first loop of `batch_transfer_recipient`.
unfoldable pub peek_all : World → List ℕ → Result (List (ℕ × Stream))
peek_all w [] = ok []
peek_all w (id ∷ ids) = do s ← peek_stream id w; rest ← peek_all w ids; ok ((id, s) ∷ rest)
