-- ===== src/Stream/Pausing.antt =====
-- `pause` and `resume` of contracts/stream/src/lib.rs.
use perpetua_contracts.Prelude.{ℕ, ◌-◌, not, ◌||◌, none, some, is_some}
use perpetua_contracts.Words.{u64_checked_add}
use perpetua_contracts.Stream.Error.{Error, Result, ok, ◌>>=◌, ◌>>◌, fail_if, ok_or}
use perpetua_contracts.Stream.Types.{Stream, StreamStatus, is_terminal, pausable}
use perpetua_contracts.Stream.Host.{Env, World, Payload, require_auth}
use perpetua_contracts.Stream.Storage.{load_stream, save_stream}
use perpetua_contracts.Stream.Events
use perpetua_contracts.Stream.Lifecycle.{bump_instance_ttl, status_eq}

-- The record of a stream whose clock stops at `now`.
abbrev pub frozen : Stream → ℕ → Stream
frozen s now = record s { paused_at = some now; status = StreamStatus.paused }

-- The record of a stream whose clock runs again, with all its pauses counted.
abbrev pub thawed : Stream → ℕ → Stream
thawed s total = record s { paused_total = total; paused_at = none; status = StreamStatus.active }

unfoldable pub pause : Env → ℕ → World → Result World
pause env id w = do
  (s, w) ← load_stream env id w
  require_auth env s.sender (Payload.id_args id)
  fail_if (not (pausable s)) Error.not_pausable
  fail_if (is_terminal s.status) Error.stream_terminated
  fail_if (status_eq s.status StreamStatus.paused || is_some s.paused_at)
      Error.stream_already_paused
  let s' = frozen s env.now
  let w = save_stream env id s' w
  let w = bump_instance_ttl env w
  ok (Events.paused id s' env.now w)

unfoldable pub resume : Env → ℕ → World → Result World
resume env id w = do
  (s, w) ← load_stream env id w
  require_auth env s.sender (Payload.id_args id)
  fail_if (is_terminal s.status) Error.stream_terminated
  paused_at ← ok_or s.paused_at Error.stream_not_paused
  fail_if (not (status_eq s.status StreamStatus.paused)) Error.stream_not_paused
  let paused_duration = env.now - paused_at
  total ← ok_or (u64_checked_add s.paused_total paused_duration) Error.overflow
  let s' = thawed s total
  let w = save_stream env id s' w
  let w = bump_instance_ttl env w
  ok (Events.resumed id s' paused_duration w)
