-- ===== src/Stream/Storage.antt =====
-- contracts/stream/src/storage.rs: the stored entries and the length of their lives.
use perpetua_contracts.Prelude.{
  ℕ, ◌+◌, ◌-◌, ◌*◌, ◌/◌, Bool, ◌&&◌, Option, none, some, ltb, ◌==◌, if◌then◌else◌, get_or, is_some,
  update, larger, smaller,
}
use perpetua_contracts.Words.{u64_saturating_add, u64_checked_add, u32_max}
use perpetua_contracts.Stream.Error.{Error, Result, ok, ◌>>=◌, ok_or}
use perpetua_contracts.Stream.Types.{Address, Stream, DelegateGrant}
use perpetua_contracts.Stream.Host.{Env, World, live_until}

abbrev pub seconds_per_ledger : ℕ
seconds_per_ledger = 5

abbrev pub ttl_buffer_seconds : ℕ
ttl_buffer_seconds = 30 * 24 * 60 * 60

-- 30 days of ledgers and a tenth more, rounded as the source rounds it.
abbrev pub min_stream_ttl_ledgers : ℕ
min_stream_ttl_ledgers = (ttl_buffer_seconds * 11 + (10 - 1)) / 10 / seconds_per_ledger

unfoldable pub seconds_to_ledgers : ℕ → ℕ
seconds_to_ledgers seconds =
    let ledgers = u64_saturating_add seconds (seconds_per_ledger - 1) / seconds_per_ledger in
    if ltb u32_max ledgers then u32_max else ledgers

-- The wall-clock end of the schedule as it stands: shifted by the pauses, one in progress included.
unfoldable pub effective_end : Stream → ℕ → ℕ
effective_end s now =
    u64_saturating_add (u64_saturating_add s.end_time s.paused_total)
      (elim s.paused_at [ none ↦ 0 | some paused_at ↦ now - paused_at ])

unfoldable pub ttl_target_ledgers_at : Env → Stream → ℕ → ℕ
ttl_target_ledgers_at env s now =
    let remaining = effective_end s now - now in
    let target = seconds_to_ledgers (u64_saturating_add remaining ttl_buffer_seconds) in
    smaller (larger target min_stream_ttl_ledgers) env.max_ttl

unfoldable pub ttl_target_ledgers : Env → Stream → ℕ
ttl_target_ledgers env s = ttl_target_ledgers_at env s env.now

unfoldable pub next_stream_id : World → ℕ
next_stream_id w = get_or w.next_id 0

unfoldable pub extend_instance : Env → World → World
extend_instance env w = record w {
  instance_live_until = live_until env w.instance_live_until env.max_ttl env.max_ttl;
}

unfoldable pub allocate_stream_id : Env → World → Result (ℕ × World)
allocate_stream_id env w = do
  let current = next_stream_id w
  next ← ok_or (u64_checked_add current 1) Error.stream_id_exhausted
  ok (current, extend_instance env (record w { next_id = some next }))

unfoldable pub extend_stream : Env → ℕ → Stream → World → World
extend_stream env id s w =
    let target = ttl_target_ledgers env s in
    record w {
      stream_live_until =
          update w.stream_live_until id (live_until env (w.stream_live_until id) target target);
    }

unfoldable pub peek_stream : ℕ → World → Result Stream
peek_stream id w = ok_or (w.streams id) Error.stream_not_found

unfoldable pub load_stream : Env → ℕ → World → Result (Stream × World)
load_stream env id w = do
  s ← ok_or (w.streams id) Error.stream_not_found
  ok (s, extend_stream env id s w)

-- `set` of an entry: one that was not there begins with the host's minimal life.
abbrev pub set_stream : Env → ℕ → Stream → World → World
set_stream env id s w = record w {
  streams = update w.streams id (some s);
  stream_live_until =
      update w.stream_live_until id
        (if is_some (w.streams id) then w.stream_live_until id else env.sequence + env.min_ttl);
}

unfoldable pub save_stream : Env → ℕ → Stream → World → World
unfolding extend_stream
save_stream env id s w = extend_stream env id s (set_stream env id s w)

unfoldable pub stream_count : World → ℕ
stream_count w = next_stream_id w

unfoldable pub stream_exists : World → ℕ → Bool
stream_exists w id = is_some (w.streams id)

abbrev pub update_delegate {ℓ} :
    {V : Type ℓ} → (ℕ → Address → V) → ℕ → Address → V → ℕ → Address → V
update_delegate f id who v i a = if i == id && a == who then v else f i a

abbrev pub renew_delegate : Env → ℕ → Address → ℕ → World → World
renew_delegate env id delegate until w = record w {
  delegate_live_until =
      update_delegate w.delegate_live_until id delegate
        (live_until env until env.max_ttl env.max_ttl);
}

unfoldable pub save_delegate : Env → ℕ → Address → DelegateGrant → World → World
save_delegate env id delegate grant w =
    renew_delegate env id delegate
      (if is_some (w.delegates id delegate)
        then w.delegate_live_until id delegate
        else env.sequence + env.min_ttl)
      (record w { delegates = update_delegate w.delegates id delegate (some grant) })

abbrev pub used_grant : Env → ℕ → Address → Option DelegateGrant → World → World
used_grant env id delegate none w = w
used_grant env id delegate (some grant) w =
    renew_delegate env id delegate (w.delegate_live_until id delegate) w

-- A grant that is found is renewed.
unfoldable pub load_delegate : Env → ℕ → Address → World → Option DelegateGrant × World
load_delegate env id delegate w =
    let grant = w.delegates id delegate in (grant, used_grant env id delegate grant w)

unfoldable pub remove_delegate : ℕ → Address → World → World
remove_delegate id delegate w = record w {
  delegates = update_delegate w.delegates id delegate none;
}
