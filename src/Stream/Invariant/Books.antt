-- ===== src/Stream/Invariant/Books.antt =====
-- The books of the pool: what the contract owes in a token, and what has come in and gone out of
-- it by the transfers that the token has made.
use perpetua_contracts.Prelude.{
  ℕ, zero, suc, ◌+◌, ◌-◌, ◌≤◌, ◌<◌, ◌≡◌, ◌&&◌, Option, none, some, List, [], ◌∷◌, arith, ◌==◌,
  if◌then◌else◌, update,
}
use perpetua_contracts.Prelude.Int.{pos_part}
use perpetua_contracts.Stream.Types.{Address, Stream}
use perpetua_contracts.Stream.Host.{Transfer}

-- `deposited - withdrawn`, for a stream of this token.
abbrev pub owed : Address → Option Stream → ℕ
owed token none = 0
owed token (some s) = if s.token == token then pos_part s.deposited - pos_part s.withdrawn else 0

-- What the streams with an id below `n` are owed.
unfoldable pub total_owed : Address → (ℕ → Option Stream) → ℕ → ℕ
total_owed token streams zero = 0
total_owed token streams (suc n) = total_owed token streams n + owed token (streams n)

unfoldable pub paid_in : Address → Address → List Transfer → ℕ
paid_in self token [] = 0
paid_in self token (t ∷ ts) =
    (if t.token == token && t.target == self then pos_part t.amount else 0) + paid_in self token ts

unfoldable pub paid_out : Address → Address → List Transfer → ℕ
paid_out self token [] = 0
paid_out self token (t ∷ ts) =
    (if t.token == token && t.source == self then pos_part t.amount else 0) + paid_out self token ts

pub total_owed-update_above :
    (token : Address) (f : ℕ → Option Stream) (i : ℕ) (o : Option Stream) (n : ℕ)
    → n ≤ i
    → total_owed token (update f i o) n ≡ total_owed token f n
unfolding total_owed
total_owed-update_above token f i o zero h = omega arith
total_owed-update_above token f i o (suc n) h =
    ground (arith, total_owed-update_above token f i o n)

pub total_owed-update :
    (token : Address) (f : ℕ → Option Stream) (i : ℕ) (o : Option Stream) (n : ℕ)
    → i < n
    → total_owed token (update f i o) n + owed token (f i) ≡ total_owed token f n + owed token o
unfolding total_owed
total_owed-update token f i o zero h = absurd (omega arith)
total_owed-update token f i o (suc n) h =
    ground (arith, total_owed-update token f i o n, total_owed-update_above token f i o n)

pub owed-le_total :
    (token : Address) (f : ℕ → Option Stream) (i n : ℕ)
    → i < n
    → owed token (f i) ≤ total_owed token f n
unfolding total_owed
owed-le_total token f i zero h = absurd (omega arith)
owed-le_total token f i (suc n) h = ground (arith, owed-le_total token f i n)

pub total_owed-extend :
    (token : Address) (f : ℕ → Option Stream) (n : ℕ) (o : Option Stream)
    → total_owed token (update f n o) (suc n) ≡ total_owed token f n + owed token o
unfolding total_owed
total_owed-extend token f n o = ground (arith, total_owed-update_above token f n o n)
