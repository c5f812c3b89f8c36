-- ===== src/Governance/Inversion/Dispatch.antt =====
-- What a dispatch of contracts/governance/src/lib.rs leaves alone.
use perpetua_contracts.Prelude.{◌≡◌, ltb, ◌==◌, length, List, [], ◌∷◌, arith}
use perpetua_contracts.Governance.Types.{
  Address, Bytes, ExecutionCall, CallData, Invocation, GovernanceError, done, >>=-eq-done,
  refuse_if-eq-done,
}
use perpetua_contracts.Governance.Host.{Env, Store, invoke_contract}
use perpetua_contracts.Governance.Storage.{max_batch_calls}
use perpetua_contracts.Governance.Dispatch.{
  decode_calldata, is_batch, dispatch_operation, dispatch_entries, dispatch_decoded, dispatch_call,
}

abbrev pub with_invoked : Store → List Invocation → Store
with_invoked s calls = record s { invoked = calls }

invoke_frames :
    (env : Env) (call : Invocation) (s s' : Store)
    → invoke_contract env call s ≡ done s'
    → s' ≡ with_invoked s s'.invoked
invoke_frames env call s s' h = ground arith

pub dispatch_operation_frames :
    (env : Env) (target : Address) (op : CallData) (s s' : Store)
    → dispatch_operation env target op s ≡ done s'
    → s' ≡ with_invoked s s'.invoked
unfolding dispatch_operation
dispatch_operation_frames env target CallData.noop s s' h = ground arith
dispatch_operation_frames env target (CallData.batch calls) s s' h = absurd (ground arith)
dispatch_operation_frames env target op s s' h = invoke_frames env _ s s' h

pub dispatch_entries_frames :
    (env : Env) (calls : List ExecutionCall) (s s' : Store)
    → dispatch_entries env calls s ≡ done s'
    → s' ≡ with_invoked s s'.invoked
unfolding dispatch_entries
dispatch_entries_frames env [] s s' h = ground arith
dispatch_entries_frames env (call ∷ calls) s s' h =
    let (inner, _, h1) = >>=-eq-done (decode_calldata env call.calldata) _ h in
    let (_, h2) = refuse_if-eq-done (is_batch inner) GovernanceError.invalid_calldata _ h1 in
    let (s1, e, h3) = >>=-eq-done (dispatch_operation env call.target inner s) _ h2 in
    ground (
      arith,
      dispatch_operation_frames env call.target inner s s1 e,
      dispatch_entries_frames env calls s1 s' h3,
    )

dispatch_decoded_frames :
    (env : Env) (target : Address) (op : CallData) (s s' : Store)
    → dispatch_decoded env target op s ≡ done s'
    → s' ≡ with_invoked s s'.invoked
unfolding dispatch_decoded
dispatch_decoded_frames env target (CallData.batch calls) s s' h =
    let (_, h1) = refuse_if-eq-done (length calls == 0) GovernanceError.invalid_calldata _ h in
    let (_, h2) =
      refuse_if-eq-done (ltb max_batch_calls (length calls)) GovernanceError.batch_too_large _ h1 in
    dispatch_entries_frames env calls s s' h2
dispatch_decoded_frames env target op s s' h = dispatch_operation_frames env target op s s' h

-- A dispatch changes nothing but the list of the calls that have been made.
pub dispatch_call_frames :
    (env : Env) (target : Address) (calldata : Bytes) (s s' : Store)
    → dispatch_call env target calldata s ≡ done s'
    → s' ≡ with_invoked s s'.invoked
unfolding dispatch_call
dispatch_call_frames env target calldata s s' h =
    let (op, _, h1) = >>=-eq-done (decode_calldata env calldata) _ h in
    dispatch_decoded_frames env target op s s' h1
