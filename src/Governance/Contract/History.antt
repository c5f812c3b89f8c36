-- ===== src/Governance/Contract/History.antt =====
-- Sequences of calls of contracts/governance/src/lib.rs, from a sound storage on.
use perpetua_contracts.Prelude.{
  ℕ, ◌+◌, ◌≤◌, ◌<◌, ◌≡◌, Bool, true, false, some, arith, refl, get_or, ◌≢◌, ap,
}
use perpetua_contracts.Governance.Types.{
  Address, ProposalStatus, Proposal, GovernanceError, done, failed, is_terminal,
}
use perpetua_contracts.Governance.Host.{Env, Store}
use perpetua_contracts.Governance.Storage.{get_signer_generation, read_next_proposal_id}
use perpetua_contracts.Governance.Admin
use perpetua_contracts.Governance.Proposals.{
  execute, cancel_proposal, as_executed, check_executable,
}
use perpetua_contracts.Governance.Views.{has_signer}
use perpetua_contracts.Governance.Contract.{Call, perform}
use perpetua_contracts.Governance.Contract.Reachability.{perform-IsSound}
use perpetua_contracts.Governance.Contract.Lifecycle.{perform-Passes}
use perpetua_contracts.Governance.Preserve.Voting.{execute-IsSound}
use perpetua_contracts.Governance.Invariant.{IsSound, IsSound-later}
use perpetua_contracts.Governance.Lifecycle.{StatusStep, Fate, Passes}
use perpetua_contracts.Governance.Inversion.Execution.{execute_inv}

-- The calls that have succeeded since the time `since` and the storage `s`, and what they lead to.
pub data History (since : ℕ) (s : Store) : ℕ → Store → Type 0 where
  start : History since s since s
  then_call :
      {now : ℕ} {t : Store} (env : Env) (c : Call) (t' : Store)
      → History since s now t
      → now ≤ env.now
      → perform env c t ≡ done t'
      → History since s env.now t'

pub History-IsSound :
    {since : ℕ} {s : Store} {now : ℕ} {t : Store}
    → IsSound since s
    → History since s now t
    → IsSound now t
History-IsSound v start = v
History-IsSound v (then_call {now} {t} env c t' r later h) =
    perform-IsSound env c t t' (IsSound-later now env.now t later (History-IsSound v r)) h

not_terminal :
    (id : ℕ) (c : Call) (old new : ProposalStatus)
    → StatusStep id c old new
    → is_terminal old ≡ false
not_terminal id c ProposalStatus.proposed new m = refl
not_terminal id c ProposalStatus.approved new m = refl
not_terminal id c ProposalStatus.queued new m = refl
not_terminal id c ProposalStatus.executed new (StatusStep.vote a e o n) = cc
not_terminal id c ProposalStatus.executed new (StatusStep.queue a e o n) = cc
not_terminal id c ProposalStatus.executed new (StatusStep.execute a e o n) = cc
not_terminal id c ProposalStatus.executed new (StatusStep.cancel a e o n) = cc
not_terminal id c ProposalStatus.cancelled new (StatusStep.vote a e o n) = cc
not_terminal id c ProposalStatus.cancelled new (StatusStep.queue a e o n) = cc
not_terminal id c ProposalStatus.cancelled new (StatusStep.execute a e o n) = cc
not_terminal id c ProposalStatus.cancelled new (StatusStep.cancel a e o n) = cc

-- One call leaves a proposal at its end alone.
terminal_stays :
    (id : ℕ) (p : Proposal) (c : Call) (s s' : Store)
    → id < read_next_proposal_id s
    → s.proposals id ≡ some p
    → is_terminal p.status ≡ true
    → Fate id c s s'
    → s'.proposals id ≡ some p
terminal_stays id p c s s' below e t (Fate.same f) = ground arith
terminal_stays id p c s s' below e t (Fate.moved q q' found found' m) =
    let n = not_terminal id c q.status q'.status m.step in
    let same : q ≡ p = ground arith in absurd (ground arith)
terminal_stays id p c s s' below e t (Fate.created q is_next found st g) = absurd (omega arith)
terminal_stays id p c s s' below e t (Fate.pruned q a n is_c found t' gone) =
    let same : q ≡ p = ground arith in absurd (ground arith)

-- A proposal that has been executed or cancelled stays just as it is.
pub terminal_lasts :
    {since : ℕ} {s : Store} (id : ℕ) (p : Proposal) {now : ℕ} {t : Store}
    → IsSound since s
    → s.proposals id ≡ some p
    → is_terminal p.status ≡ true
    → History since s now t
    → t.proposals id ≡ some p
terminal_lasts id p v e k start = e
terminal_lasts id p v e k (then_call {now} {t} env c t' r later h) =
    let before = terminal_lasts id p v e k r in
    let u = IsSound-later now env.now t later (History-IsSound v r) in
    let passes = perform-Passes env c t t' u h in
    let (below, _) = u.numbered id p before in
    terminal_stays id p c t t' below before k (passes.fate id)

already_executed :
    (env : Env) (who : Address) (id : ℕ) (p : Proposal) (t : Store)
    → t.proposals id ≡ some p
    → p.status ≡ ProposalStatus.executed
    → get_or t.executing false ≡ false
    → env.authorized who ≡ true
    → (execute env who id t ≡ failed GovernanceError.already_executed)
      × (cancel_proposal env who id t ≡ failed GovernanceError.already_executed)
unfolding execute cancel_proposal check_executable
already_executed env who id p t e x idle signed = (ground arith, ground arith)

-- A proposal is executed once. After it has been executed in a sound storage, whatever calls follow,
-- it stands there as executed, and a caller who signs can neither execute nor cancel it: both end with
-- `AlreadyExecuted`.
pub executed_once :
    (env env' : Env) (executor who : Address) (id now : ℕ) (s s' t : Store)
    → IsSound env.now s
    → execute env executor id s ≡ done s'
    → History env.now s' now t
    → env'.authorized who ≡ true
    → ((p : Proposal) × (s.proposals id ≡ some p) × (t.proposals id ≡ some (as_executed p)))
      × (execute env' who id t ≡ failed GovernanceError.already_executed)
      × (cancel_proposal env' who id t ≡ failed GovernanceError.already_executed)
executed_once env env' executor who id now s s' t v h later signed =
    let r = execute_inv env executor id s s' h in
    let v' = execute-IsSound env s s' v executor id h in
    let here : s'.proposals id ≡ some (as_executed r.p) = rw (r.written) (ground arith) in
    let lasts = terminal_lasts id (as_executed r.p) v' here refl later in
    let idle = (History-IsSound v' later).idle in
    let (x, c) = already_executed env' who id (as_executed r.p) t lasts refl idle signed in
    ((r.p, r.found, lasts), x, c)

-- The calls that start a new generation.
abbrev pub changes_board : Call → Store → Bool
changes_board (Call.set_threshold n) s = true
changes_board (Call.update_threshold n) s = true
changes_board (Call.add_signer a) s = true
changes_board (Call.remove_signer a) s = has_signer s.signer_index a
changes_board c s = false

generation_rises :
    (env : Env) (c : Call) (s s' : Store)
    → IsSound env.now s
    → changes_board c s ≡ true
    → perform env c s ≡ done s'
    → get_signer_generation s' ≡ get_signer_generation s + 1
unfolding perform Admin.set_threshold Admin.update_threshold Admin.add_signer Admin.remove_signer
    Admin.remove_registered
generation_rises env (Call.set_threshold n) s s' v k h = ground arith
generation_rises env (Call.update_threshold n) s s' v k h = ground arith
generation_rises env (Call.add_signer a) s s' v k h = ground arith
generation_rises env (Call.remove_signer a) s s' v k h = ground arith
generation_rises env c s s' v k h = cc

-- The proposal `id`, if it is there, is of an earlier generation than the board.
record IsStale (id : ℕ) (s : Store) : Type 0 where
  numbered : id < read_next_proposal_id s
  earlier : (p : Proposal) → s.proposals id ≡ some p → p.signer_generation < get_signer_generation s

IsStale-stays : (id : ℕ) (c : Call) (s s' : Store) → IsStale id s → Passes c s s' → IsStale id s'
IsStale-stays id c s s' x w = record {
  numbered = omega (arith, x.numbered, w.next);
  earlier = λ p e. elim (w.fate id) [
    | Fate.same f ↦ ground (arith, w.generation, x.earlier p)
    | Fate.moved q q' found found' m ↦
        let same : q' ≡ p = ground arith in
        ground (arith, w.generation, x.earlier q, m.same_generation)
    | Fate.created q is_next found st g ↦ absurd (omega (arith, x.numbered))
    | Fate.pruned q a n is_c found t gone ↦ absurd (ground arith)
  ];
}

IsStale-lasts :
    {since : ℕ} {s : Store} (id : ℕ) {now : ℕ} {t : Store}
    → IsSound since s
    → IsStale id s
    → History since s now t
    → IsStale id t
IsStale-lasts id v x start = x
IsStale-lasts id v x (then_call {now} {t} env c t' r later h) =
    let u = IsSound-later now env.now t later (History-IsSound v r) in
    IsStale-stays id c t t' (IsStale-lasts id v x r) (perform-Passes env c t t' u h)

-- A change of the threshold or of the signers of a sound storage voids every proposal made before,
-- whether or not it has reached its quorum: after `set_threshold`, `update_threshold`, `add_signer`
-- or the removal of a signer, whatever calls follow, none of the proposals with an id below the next
-- one of that time is executed.
pub board_change_voids :
    (env env' : Env) (c : Call) (executor : Address) (id now : ℕ) (s s' t t' : Store)
    → IsSound env.now s
    → changes_board c s ≡ true
    → perform env c s ≡ done s'
    → id < read_next_proposal_id s
    → History env.now s' now t
    → execute env' executor id t ≢ done t'
board_change_voids env env' c executor id now s s' t t' v k h below later e =
    let v' = perform-IsSound env c s s' v h in
    let w = perform-Passes env c s s' v h in
    let rise = generation_rises env c s s' v k h in
    let stale : IsStale id s' = record {
      numbered = omega (arith, w.next);
      earlier = λ p f. elim (w.fate id) [
        | Fate.same g ↦ let o = v.numbered id p (ground arith) in omega (arith, rise, o)
        | Fate.moved q q' found found' m ↦
            let o = v.numbered id q found in
            let same : q' ≡ p = ground arith in ground (arith, rise, m.same_generation)
        | Fate.created q is_next found st g ↦ absurd (omega arith)
        | Fate.pruned q a n is_c found g gone ↦ absurd (ground arith)
      ];
    } in
    let x = IsStale-lasts id v' stale later in
    let r = execute_inv env' executor id t t' e in
    omega (arith, x.earlier r.p r.found, ap (λ (n : ℕ). n) r.due.same_board)
