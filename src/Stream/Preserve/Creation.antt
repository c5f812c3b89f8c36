-- ===== src/Stream/Preserve/Creation.antt =====
-- `create_stream` of contracts/stream/src/lib.rs, and the invariant.
use perpetua_contracts.Prelude.{ℕ, suc, ◌+◌, ◌≡◌, ◌≢◌, Bool, some, arith, ◌==◌, if◌then◌else◌}
use perpetua_contracts.Prelude.Int.{ℤ}
use perpetua_contracts.Stream.Types.{Address}
use perpetua_contracts.Stream.Host.{Env, World}
use perpetua_contracts.Stream.Storage.{next_stream_id}
use perpetua_contracts.Stream.Lifecycle.{new_stream}
use perpetua_contracts.Stream.Inversion.Funding.{Created}
use perpetua_contracts.Stream.Invariant.Books.{total_owed, total_owed-extend, paid_in, paid_out}
use perpetua_contracts.Stream.Invariant.Sound.{IsSound, IsValid-after}
use perpetua_contracts.Stream.Preserve.Funding.{new_stream-IsValid}

-- The next id and the debt after a stream is added.
pub next_stream_id-some : (w : World) (n : ℕ) → w.next_id ≡ some n → next_stream_id w ≡ n
unfolding next_stream_id
next_stream_id-some w n e = ground arith

module _ (env : Env) (sender recipient token : Address) (deposit : ℤ) (a b c : ℕ) (f g h : Bool)
    (id : ℕ) (w w' : World) (v : IsSound env.self env.now w)
    (x : Created env sender recipient token deposit a b c f g h id w w')
    (other : sender ≢ env.self) where
  created_owed :
      (tok : Address)
      → total_owed tok w'.streams (suc id)
        ≡ total_owed tok w.streams id + (if token == tok then x.amount else 0)
  created_owed tok = rw x.written (
      ground (
        arith,
        x.deposited,
        total_owed-extend tok w.streams id
            (some (new_stream sender recipient token deposit a b c f g h)),
      ))

  pub created-IsSound : IsSound env.self env.now w'
  unfolding paid_in paid_out
  created-IsSound =
      let next = next_stream_id-some w' (id + 1) x.next_ids in
      let s = new_stream sender recipient token deposit a b c f g h in
      record {
        valid = λ i s0 e.
            IsValid-after env.self env.now env.now w.streams id s (omega arith) v.valid
              (
                x.amount,
                0,
                new_stream-IsValid env sender recipient token deposit a b c f g h id w w' other x,
              )
              i s0 (ground (arith, x.written));
        issued = λ i e. rw (x.written) (ground (arith, next, x.fresh, v.issued i));
        unissued = λ i e. rw (x.written) (ground (arith, next, x.fresh, v.unissued i));
        solvent = λ tok.
            rw (next, x.moved)
              (ground (arith, created_owed tok, v.solvent tok, x.fresh, x.deposited, other));
      }
