-- ===== src/Stream/Guarantee/Pauses.antt =====
-- `pause` and `resume` of contracts/stream/src/lib.rs, and the clock of a stream.
use perpetua_contracts.Prelude.{ℕ, ◌+◌, ◌-◌, ◌≤◌, ◌≡◌, none, some, arith, refl}
use perpetua_contracts.Stream.Error.{ok}
use perpetua_contracts.Stream.Types.{Stream, StreamStatus}
use perpetua_contracts.Stream.Accrual.{stream_time, vested, duration, elapsed, cliff_reached}
use perpetua_contracts.Stream.Host.{Env, World}
use perpetua_contracts.Stream.Storage.{load_stream}
use perpetua_contracts.Stream.Pausing.{pause, resume, frozen, thawed}
use perpetua_contracts.Stream.Effect.{Rewrites}
use perpetua_contracts.Stream.Inversion.Pausing.{pause_inv, resume_inv}

shifted_vested :
    (s s' : Stream) (t u : ℕ)
    → stream_time s' u ≡ stream_time s t
    → s'.start_time ≡ s.start_time
    → s'.end_time ≡ s.end_time
    → s'.cliff_time ≡ s.cliff_time
    → s'.deposited ≡ s.deposited
    → vested s' u ≡ vested s t
unfolding vested cliff_reached duration elapsed
shifted_vested s s' t u a b c d e = rw (a, b, c, d, e) refl

-- A pause freezes accrual: what was vested at the instant of the pause is what is vested at every
-- time while the stream stays as the pause has left it.
pub pause_freezes :
    (env : Env) (id : ℕ) (w w' : World)
    → pause env id w ≡ ok w'
    → (s s' : Stream) × (w.streams id ≡ some s)
      × (s'.paused_at ≡ some env.now)
      × Rewrites id s' w.transfers w w'
      × ((u : ℕ) → vested s' u ≡ vested s env.now)
unfolding stream_time
pause_freezes env id w w' h =
    let (s, e, _, _, _, n, effect) = pause_inv env id w w' h in
    (
      s,
      frozen s env.now,
      e,
      refl,
      effect,
      λ u. shifted_vested s (frozen s env.now) env.now u (ground arith) refl refl refl refl,
    )

-- A pause is of a stream that is active.
pause_was_active :
    (env : Env) (id : ℕ) (w w' : World) (s : Stream)
    → w.streams id ≡ some s
    → pause env id w ≡ ok w'
    → (status : StreamStatus) → s.status ≡ status
    → s.status ≡ StreamStatus.active
unfolding pause load_stream
pause_was_active env id w w' s e h StreamStatus.active k = k
pause_was_active env id w w' s e h status k = absurd (ground arith)

-- A pause at one instant and a resumption at a later one shift the schedule by the time between
-- them and do nothing else: the stream was active and not paused, only its total of paused seconds
-- differs in its record, and at each moment it has vested what it would have vested that much
-- earlier without them.
pub pause-resume_shifts :
    (env env' : Env) (id : ℕ) (w w' w'' : World)
    → env.now ≤ env'.now
    → pause env id w ≡ ok w'
    → resume env' id w' ≡ ok w''
    → (s s'' : Stream) × (w.streams id ≡ some s)
      × (w''.streams id ≡ some s'')
      × (s.status ≡ StreamStatus.active)
      × (s.paused_at ≡ none)
      × (s'' ≡ record s { paused_total = s.paused_total + (env'.now - env.now) })
      × ((t : ℕ) → vested s'' (t + (env'.now - env.now)) ≡ vested s t)
unfolding stream_time
pause-resume_shifts env env' id w w' w'' later h h' =
    let (s, e, _, _, _, n, effect) = pause_inv env id w w' h in
    let (s1, p, e1, paused, _, _, _, effect1) = resume_inv env' id w' w'' h' in
    let active = pause_was_active env id w w' s e h s.status refl in
    let is_s1 : s1 ≡ frozen s env.now = ground (arith, effect.written) in
    let is_p : p ≡ env.now = ground arith in
    let s2 : Stream = record s { paused_total = s.paused_total + (env'.now - env.now) } in
    let is_s2 : thawed s1 (s1.paused_total + (env'.now - p)) ≡ s2 = ground arith in
    (
      s,
      s2,
      e,
      ground (arith, effect1.written),
      active,
      n,
      refl,
      λ t. shifted_vested s s2 t (t + (env'.now - env.now)) (ground arith) refl refl refl refl,
    )
