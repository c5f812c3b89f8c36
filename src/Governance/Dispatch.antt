-- ===== src/Governance/Dispatch.antt =====
-- The calls that an executed proposal makes: `dispatch_call` and `dispatch_operation` of
-- contracts/governance/src/lib.rs.
use perpetua_contracts.Prelude.{Bool, true, false, List, [], ◌∷◌, ltb, ◌==◌, length}
use Prim.Native.String.{String}
use perpetua_contracts.Governance.Types.{
  Address, Bytes, GovernanceError, ExecutionCall, CallData, Argument, Outcome, done, failed, ◌>>=◌,
  ◌>>◌, refuse_if, or_failed,
}
use perpetua_contracts.Governance.Host.{Env, Store, invoke_contract}
use perpetua_contracts.Governance.Storage.{max_batch_calls}

abbrev pub decode_calldata : Env → Bytes → Outcome CallData
decode_calldata env calldata = or_failed (env.from_xdr calldata) GovernanceError.invalid_calldata

abbrev pub invoke : Env → Address → String → List Argument → Store → Outcome Store
invoke env target function arguments s =
    invoke_contract env (record { target = target; function = function; arguments = arguments }) s

unfoldable pub dispatch_operation : Env → Address → CallData → Store → Outcome Store
dispatch_operation env target CallData.noop s = done s
dispatch_operation env target (CallData.batch calls) s = failed GovernanceError.invalid_calldata
dispatch_operation env target (CallData.stream_set_admin new_admin) s =
    invoke env target "set_admin" (Argument.address new_admin ∷ []) s
dispatch_operation env target (CallData.stream_set_max_rate max_rate) s =
    invoke env target "set_max_rate_per_second" (Argument.amount max_rate ∷ []) s
dispatch_operation env target CallData.stream_global_resume s =
    invoke env target "global_resume" [] s
dispatch_operation env target (CallData.stream_bulk_resume_as_admin stream_ids) s =
    invoke env target "bulk_resume_streams_as_admin" (Argument.words stream_ids ∷ []) s
dispatch_operation env target (CallData.factory_set_admin new_admin) s =
    invoke env target "set_admin" (Argument.address new_admin ∷ []) s
dispatch_operation env target (CallData.factory_set_cap max_deposit) s =
    invoke env target "set_cap" (Argument.amount max_deposit ∷ []) s
dispatch_operation env target (CallData.factory_set_min_duration min_duration) s =
    invoke env target "set_min_duration" (Argument.word min_duration ∷ []) s
dispatch_operation env target (CallData.factory_set_allowlist recipient allowed) s =
    invoke env target "set_allowlist" (Argument.address recipient ∷ Argument.flag allowed ∷ []) s
dispatch_operation env target (CallData.factory_set_stream_contract new_contract) s =
    invoke env target "set_stream_contract" (Argument.address new_contract ∷ []) s
dispatch_operation env target (CallData.factory_set_stream_wasm_hash new_hash) s =
    invoke env target "set_stream_wasm_hash" (Argument.hash new_hash ∷ []) s

abbrev pub is_batch : CallData → Bool
is_batch (CallData.batch calls) = true
is_batch _ = false

-- The loop over the entries of a batch.
unfoldable pub dispatch_entries : Env → List ExecutionCall → Store → Outcome Store
dispatch_entries env [] s = done s
dispatch_entries env (call ∷ calls) s = do
  inner ← decode_calldata env call.calldata
  refuse_if (is_batch inner) GovernanceError.invalid_calldata
  s ← dispatch_operation env call.target inner s
  dispatch_entries env calls s

unfoldable pub dispatch_decoded : Env → Address → CallData → Store → Outcome Store
dispatch_decoded env target (CallData.batch calls) s = do
  refuse_if (length calls == 0) GovernanceError.invalid_calldata
  refuse_if (ltb max_batch_calls (length calls)) GovernanceError.batch_too_large
  dispatch_entries env calls s
dispatch_decoded env target op s = dispatch_operation env target op s

unfoldable pub dispatch_call : Env → Address → Bytes → Store → Outcome Store
dispatch_call env target calldata s = do
  op ← decode_calldata env calldata
  dispatch_decoded env target op s
