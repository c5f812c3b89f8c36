-- ===== src/Stream/Effect.antt =====
-- The effects that calls of the streaming contract have on the entries and on the token, up to
-- the lives of the entries and the events.
use perpetua_contracts.Prelude.{ℕ, ◌≡◌, some, List, update}
use perpetua_contracts.Stream.Types.{Stream}
use perpetua_contracts.Stream.Host.{World, Transfer}

-- The call has written `s` as stream `id` and has left the token with the transfers `ts`.
pub record Rewrites (id : ℕ) (s : Stream) (ts : List Transfer) (w w' : World) : Type 0 where
  pub written : w'.streams ≡ update w.streams id (some s)
  pub same_ids : w'.next_id ≡ w.next_id
  pub moved : w'.transfers ≡ ts
  pub same_delegates : w'.delegates ≡ w.delegates

-- The call has changed no stream and moved no token.
pub record Keeps (w w' : World) : Type 0 where
  pub same_streams : w'.streams ≡ w.streams
  pub same_ids : w'.next_id ≡ w.next_id
  pub same_transfers : w'.transfers ≡ w.transfers
