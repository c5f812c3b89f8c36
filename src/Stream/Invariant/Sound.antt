-- ===== src/Stream/Invariant/Sound.antt =====
-- The invariant of the state of contracts/stream/src/lib.rs, and the effects of its calls on it.
use perpetua_contracts.Prelude.{
  ℕ, ◌+◌, ◌≤◌, ◌<◌, ◌≡◌, true, Option, none, some, List, arith, subst, is_some, update, inl, inr,
  Bool-cases, ◌==◌, ltb,
}
use perpetua_contracts.Stream.Types.{Address, Stream}
use perpetua_contracts.Stream.Host.{World, Transfer}
use perpetua_contracts.Stream.Storage.{next_stream_id}
use perpetua_contracts.Stream.Effect.{Rewrites, Keeps}
use perpetua_contracts.Stream.Invariant.Valid.{IsValid, advance-IsValid}
use perpetua_contracts.Stream.Invariant.Books.{
  owed, total_owed, total_owed-update, paid_in, paid_out,
}

pub record IsSound (self : Address) (t : ℕ) (w : World) : Type 0 where
  -- Every stream is valid.
  pub valid : (i : ℕ) (s : Stream) → w.streams i ≡ some s → (d p : ℕ) × IsValid self t s d p
  -- The ids `0 .. next_stream_id` are those that have a stream.
  pub issued : (i : ℕ) → i < next_stream_id w → is_some (w.streams i) ≡ true
  pub unissued : (i : ℕ) → next_stream_id w ≤ i → w.streams i ≡ none
  -- The pool covers what is owed, in every token.
  pub solvent :
      (token : Address)
      → paid_out self token w.transfers + total_owed token w.streams (next_stream_id w)
        ≤ paid_in self token w.transfers

pub Keeps-IsSound :
    (self t u : ℕ) (w w' : World) → t ≤ u → Keeps w w' → IsSound self t w → IsSound self u w'
unfolding next_stream_id
Keeps-IsSound self t u w w' h k v = record {
  valid = λ i s e.
      let (d, p, x) = v.valid i s (ground (arith, k.same_streams)) in
      (d, p, advance-IsValid self t u s d p h x);
  issued = λ i e. rw (k.same_streams) (v.issued i (ground (arith, k.same_ids)));
  unissued = λ i e. rw (k.same_streams) (v.unissued i (ground (arith, k.same_ids)));
  solvent = λ token. rw (k.same_streams, k.same_transfers, k.same_ids) (v.solvent token);
}

-- A stream that is there has an issued id.
pub stream-lt-next :
    (self t : ℕ) (w : World) (i : ℕ) (s : Stream)
    → IsSound self t w
    → w.streams i ≡ some s
    → i < next_stream_id w
stream-lt-next self t w i s v e = elim (Bool-cases (ltb i (next_stream_id w))) [
  | inl below ↦ ground arith
  | inr above ↦ ground (arith, v.unissued i)
]

-- The transfers and the debt of one stream change so that a pool that covered the old debt covers
-- the new one.
abbrev pub Balanced :
    Address → List Transfer → List Transfer → Option Stream → Option Stream → Type 0
Balanced self ts ts' o o' =
    (token : Address)
    → paid_out self token ts' + owed token o' + paid_in self token ts
      ≤ paid_out self token ts + owed token o + paid_in self token ts'

pub IsValid-after :
    (self t u : ℕ) (f : ℕ → Option Stream) (id : ℕ) (s' : Stream)
    → t ≤ u
    → ((i : ℕ) (s : Stream) → f i ≡ some s → (d p : ℕ) × IsValid self t s d p)
    → ((d p : ℕ) × IsValid self u s' d p)
    → (i : ℕ) (s : Stream) → update f id (some s') i ≡ some s
    → (d p : ℕ) × IsValid self u s d p
IsValid-after self t u f id s' h old new i s e = elim (Bool-cases (i == id)) [
  | inl same ↦ subst (λ x. (d p : ℕ) × IsValid self u x d p) (ground arith) new
  | inr other ↦ let (d, p, x) = old i s (ground arith) in (d, p, advance-IsValid self t u s d p h x)
]

pub Rewrites-IsSound :
    (self t u id : ℕ) (s s' : Stream) (ts : List Transfer) (w w' : World)
    → t ≤ u
    → w.streams id ≡ some s
    → Rewrites id s' ts w w'
    → ((d p : ℕ) × IsValid self u s' d p)
    → Balanced self w.transfers ts (some s) (some s')
    → IsSound self t w
    → IsSound self u w'
unfolding next_stream_id
Rewrites-IsSound self t u id s s' ts w w' h e r new balance v =
    let below = stream-lt-next self t w id s v e in
    record {
      valid = λ i s0 e0.
          IsValid-after self t u w.streams id s' h v.valid new i s0 (ground (arith, r.written));
      issued = λ i e0. rw (r.written) (ground (arith, v.issued i, r.same_ids));
      unissued = λ i e0. rw (r.written) (ground (arith, v.unissued i, r.same_ids));
      solvent = λ token.
          rw (r.written, r.same_ids, r.moved)
            (ground (
              arith,
              balance token,
              v.solvent token,
              total_owed-update token w.streams id (some s') (next_stream_id w),
            ));
    }
