-- ===== src/Stream/Preserve/BatchTransfer.antt =====
-- `batch_transfer_recipient` of contracts/stream/src/lib.rs, and the invariant.
use perpetua_contracts.Prelude.{
  ℕ, ◌+◌, ◌≡◌, ◌≢◌, inl, inr, false, some, Option, arith, refl, List, [], ◌∷◌, update, ⊤,
  Option-cases, ap, subst,
}
use perpetua_contracts.Stream.Error.{Error, ok, fail_if, >>=-eq-ok, Result-cases}
use perpetua_contracts.Stream.Types.{Address, Stream}
use perpetua_contracts.Stream.Host.{Env, World}
use perpetua_contracts.Stream.Storage.{peek_stream, save_stream}
use perpetua_contracts.Stream.Events
use perpetua_contracts.Stream.Batch.{transfer_one, transfer_all}
use perpetua_contracts.Stream.Batch.Preflight.{occurs, reject_duplicate_ids, peek_all}
use perpetua_contracts.Stream.Effect.{Rewrites}
use perpetua_contracts.Stream.Invariant.Sound.{IsSound}
use perpetua_contracts.Stream.Preserve.Calls.{transfer-IsSound}

abbrev pub peeked_ids : List (ℕ × Stream) → List ℕ
peeked_ids [] = []
peeked_ids ((id, s) ∷ r) = id ∷ peeked_ids r

-- Every record is the one that is stored, and no id comes twice.
abbrev pub IsPeeked : (ℕ → Option Stream) → List (ℕ × Stream) → Type 0
IsPeeked f [] = ⊤
IsPeeked f ((id, s) ∷ r) = (f id ≡ some s) × (occurs id (peeked_ids r) ≡ false) × IsPeeked f r

pub update-IsPeeked :
    (i : ℕ) (o : Option Stream) (f : ℕ → Option Stream) (l : List (ℕ × Stream))
    → occurs i (peeked_ids l) ≡ false
    → IsPeeked f l
    → IsPeeked (update f i o) l
unfolding occurs
update-IsPeeked i o f [] h r = tt
update-IsPeeked i o f ((id, s) ∷ l) h r =
    let rest = update-IsPeeked i o f l (ground arith) (r.2) in (ground arith, r.1, rest)

peek_step :
    (w : World) (id : ℕ) (ids : List ℕ) (l : List (ℕ × Stream))
    → peek_all w (id ∷ ids) ≡ ok l
    → (s : Stream) × (r : List (ℕ × Stream)) × (w.streams id ≡ some s)
      × (peek_all w ids ≡ ok r)
      × (l ≡ (id, s) ∷ r)
unfolding peek_all peek_stream
peek_step w id ids l h = elim (Option-cases (w.streams id)) [
  | inl e ↦ absurd (ground arith)
  | inr (s, e) ↦ elim (Result-cases (peek_all w ids)) [
    | inr bad ↦ absurd (ground arith)
    | inl (r, c) ↦ (s, r, e, c, ground arith)
  ]
]

pub peek_all-IsPeeked :
    (w : World) (ids : List ℕ) (l : List (ℕ × Stream))
    → reject_duplicate_ids ids ≡ ok tt
    → peek_all w ids ≡ ok l
    → IsPeeked w.streams l × (peeked_ids l ≡ ids)
unfolding peek_all reject_duplicate_ids
peek_all-IsPeeked w [] l d h = let none_left : l ≡ [] = ground arith in rw none_left (tt, refl)
peek_all-IsPeeked w (id ∷ ids) l d h =
    let (_, once, rest) = >>=-eq-ok (fail_if (occurs id ids) Error.duplicate_stream_id) _ d in
    let (s, r, e, f, is_l) = peek_step w id ids l h in
    let (x, same) = peek_all-IsPeeked w ids r rest f in
    rw is_l ((e, rw same (ground arith), x), ap (◌∷◌ id) same)

pub transfer_one_inv :
    (env : Env) (sender r : Address) (id : ℕ) (s : Stream) (w w' : World)
    → transfer_one env sender r id s w ≡ ok w'
    → (s.sender ≡ sender)
      × (r ≢ s.sender)
      × Rewrites id (record s { recipient = r }) w.transfers w w'
unfolding transfer_one save_stream Events.recipient_transferred
transfer_one_inv env sender r id s w w' h = (ground arith, ground arith, ground arith)

pub transfer_all-IsSound :
    (env : Env) (sender r : Address) (l : List (ℕ × Stream)) (n m : ℕ) (w w' : World)
    → IsSound env.self env.now w
    → IsPeeked w.streams l
    → transfer_all env sender r l n w ≡ ok (m, w')
    → IsSound env.self env.now w'
unfolding transfer_all
transfer_all-IsSound env sender r [] n m w w' v p h =
    let same : w ≡ w' = ground arith in subst (IsSound env.self env.now) same v
transfer_all-IsSound env sender r ((id, s) ∷ l) n m w w' v p h =
    let (w1, a, h1) = >>=-eq-ok (transfer_one env sender r id s w) _ h in
    let (_, ne, effect) = transfer_one_inv env sender r id s w w1 a in
    let v1 = transfer-IsSound env w w1 v id r s p.0 ne effect in
    let rest : IsPeeked w1.streams l =
      rw effect.written (update-IsPeeked id _ w.streams l p.1 p.2) in
    transfer_all-IsSound env sender r l (n + 1) m w1 w' v1 rest h1
