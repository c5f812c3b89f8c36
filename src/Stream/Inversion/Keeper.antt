-- ===== src/Stream/Inversion/Keeper.antt =====
-- The maintenance calls, and the whole batch calls, read backwards.
use perpetua_contracts.Prelude.{
  ℕ, ◌+◌, ◌≡◌, inl, inr, true, arith, refl, List, [], ◌∷◌, Option-cases, ◌∙◌,
}
use perpetua_contracts.Prelude.Int.{ℤ, pos}
use perpetua_contracts.Stream.Error.{ok, >>=-eq-ok}
use perpetua_contracts.Stream.Types.{Address, Stream}
use perpetua_contracts.Stream.Host.{Env, World, Payload, require_auth}
use perpetua_contracts.Stream.Storage.{peek_stream, extend_stream, extend_instance}
use perpetua_contracts.Stream.Events
use perpetua_contracts.Stream.Batch.{
  batch_withdraw, pay_all, batch_transfer_recipient, transfer_all, first_sender,
}
use perpetua_contracts.Stream.Batch.Preflight.{
  RawValue, Payout, preflight, reject_duplicate_ids, resolve, peek_all, validate_batch_ids,
}
use perpetua_contracts.Stream.Keeper.{extend_stream_ttl, sweep_one, sweep, batch_extend_ttl}
use perpetua_contracts.Stream.Effect.{Keeps}

pub Keeps-trans : {w w' w'' : World} → Keeps w w' → Keeps w' w'' → Keeps w w''
Keeps-trans a b = record {
  same_streams = b.same_streams ∙ a.same_streams;
  same_ids = b.same_ids ∙ a.same_ids;
  same_transfers = b.same_transfers ∙ a.same_transfers;
}

pub extend_stream_ttl_inv :
    (env : Env) (id n : ℕ) (w w' : World) → extend_stream_ttl env id w ≡ ok (n, w') → Keeps w w'
unfolding extend_stream_ttl peek_stream extend_stream extend_instance Events.ttl_extended
extend_stream_ttl_inv env id n w w' h = elim (Option-cases (w.streams id)) [
  | inl e ↦ absurd (ground arith)
  | inr (s, e) ↦ record {
    same_streams = ground arith;
    same_ids = ground arith;
    same_transfers = ground arith;
  }
]

sweep_one-Keeps : (env : Env) (id : ℕ) (w : World) → Keeps w (sweep_one env id w).1
unfolding sweep_one Events.ttl_extended
sweep_one-Keeps env id w = record {
  same_streams = ground arith;
  same_ids = ground arith;
  same_transfers = ground arith;
}

sweep-Keeps : (env : Env) (ids : List ℕ) (n : ℕ) (w : World) → Keeps w (sweep env ids n w).1
unfolding sweep
sweep-Keeps env [] n w = record { same_streams = refl; same_ids = refl; same_transfers = refl }
sweep-Keeps env (id ∷ ids) n w =
    Keeps-trans (sweep_one-Keeps env id w)
      (sweep-Keeps env ids (n + (sweep_one env id w).0) (sweep_one env id w).1)

pub batch_extend_ttl_inv :
    (env : Env) (raws : List RawValue) (n : ℕ) (w w' : World)
    → batch_extend_ttl env raws w ≡ ok (n, w')
    → Keeps w w'
unfolding batch_extend_ttl extend_instance
batch_extend_ttl_inv env raws n w w' h =
    let (ids, a, h1) = >>=-eq-ok (preflight raws) _ h in
    let k = sweep-Keeps env ids 0 w in
    record {
      same_streams = ground (arith, k.same_streams);
      same_ids = ground (arith, k.same_ids);
      same_transfers = ground (arith, k.same_transfers);
    }

pub preflight_inv :
    (raws : List RawValue) (ids : List ℕ)
    → preflight raws ≡ ok ids
    → (validate_batch_ids raws ≡ ok ids) × (reject_duplicate_ids ids ≡ ok tt)
unfolding preflight
preflight_inv raws ids h =
    let (ids', a, h1) = >>=-eq-ok (validate_batch_ids raws) _ h in
    let (_, b, h2) = >>=-eq-ok (reject_duplicate_ids ids') _ h1 in
    let same : ids' ≡ ids = ground arith in (rw same at a, rw same at b)

pub batch_withdraw_inv :
    (env : Env) (recipient : Address) (raws : List RawValue) (total : ℤ) (w w' : World)
    → batch_withdraw env recipient raws w ≡ ok (total, w')
    → (ids : List ℕ) × (ps : List Payout) × (w1 : World) × (validate_batch_ids raws ≡ ok ids)
      × (reject_duplicate_ids ids ≡ ok tt)
      × (env.authorized recipient (Payload.batch_args ids) ≡ true)
      × (resolve recipient env.now w ids (pos 0) ≡ ok (ps, total))
      × (pay_all env ps w ≡ ok w1)
      × Keeps w1 w'
unfolding batch_withdraw extend_instance
batch_withdraw_inv env recipient raws total w w' h =
    let (ids, a, h1) = >>=-eq-ok (preflight raws) _ h in
    let (_, b, h2) = >>=-eq-ok (require_auth env recipient (Payload.batch_args ids)) _ h1 in
    let ((ps, sum), c, h3) = >>=-eq-ok (resolve recipient env.now w ids (pos 0)) _ h2 in
    let (w1, d, h4) = >>=-eq-ok (pay_all env ps w) _ h3 in
    let (valid, distinct) = preflight_inv raws ids a in
    let same : sum ≡ total = ground arith in
    (
      ids,
      ps,
      w1,
      valid,
      distinct,
      ground arith,
      c ∙ ground arith,
      d,
      record {
        same_streams = ground arith;
        same_ids = ground arith;
        same_transfers = ground arith;
      },
    )

pub batch_transfer_recipient_inv :
    (env : Env) (raws : List RawValue) (r : Address) (n : ℕ) (w w' : World)
    → batch_transfer_recipient env raws r w ≡ ok (n, w')
    → (ids : List ℕ) × (l : List (ℕ × Stream)) × (sender : Address) × (w1 : World)
      × (validate_batch_ids raws ≡ ok ids)
      × (reject_duplicate_ids ids ≡ ok tt)
      × (peek_all w ids ≡ ok l)
      × (env.authorized sender Payload.whole_call ≡ true)
      × (transfer_all env sender r l 0 w ≡ ok (n, w1))
      × Keeps w1 w'
unfolding batch_transfer_recipient extend_instance
batch_transfer_recipient_inv env raws r n w w' h =
    let (ids, a, h1) = >>=-eq-ok (preflight raws) _ h in
    let (l, b, h2) = >>=-eq-ok (peek_all w ids) _ h1 in
    let (sender, c, h3) = >>=-eq-ok (first_sender l) _ h2 in
    let (_, d, h4) = >>=-eq-ok (require_auth env sender Payload.whole_call) _ h3 in
    let ((m, w1), e, h5) = >>=-eq-ok (transfer_all env sender r l 0 w) _ h4 in
    let (valid, distinct) = preflight_inv raws ids a in
    let same : m ≡ n = ground arith in
    (
      ids,
      l,
      sender,
      w1,
      valid,
      distinct,
      b,
      ground arith,
      e ∙ ground arith,
      record {
        same_streams = ground arith;
        same_ids = ground arith;
        same_transfers = ground arith;
      },
    )
