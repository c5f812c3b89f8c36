-- ===== src/Governance/Guarantee/Dispatch.antt =====
-- The calls that a batch of contracts/governance/src/lib.rs makes.
use perpetua_contracts.Prelude.{
  ◌↔◌, ◌≤◌, ◌<◌, ◌≡◌, Option, none, some, subst, List, [], ◌∷◌, arith, length, ltb, ◌==◌,
}
use perpetua_contracts.Governance.Types.{
  Address, Bytes, ExecutionCall, CallData, GovernanceError, done, >>=-eq-done, refuse_if-eq-done,
  or_failed,
}
use perpetua_contracts.Governance.Host.{Env, Store}
use perpetua_contracts.Governance.Storage.{max_batch_calls}
use perpetua_contracts.Governance.Inversion.Dispatch.{dispatch_call_frames}
use perpetua_contracts.Governance.Dispatch.{
  decode_calldata, is_batch, dispatch_operation, dispatch_entries, dispatch_decoded, dispatch_call,
}
use perpetua_contracts.Governance.Guarantee.Calls.{
  CarriedOut, dispatch_operation-Calls, CarriedOut-dispatch_entries,
}

dispatch_entries-CarriedOut :
    (env : Env) (calls : List ExecutionCall) (s s' : Store)
    → dispatch_entries env calls s ≡ done s'
    → CarriedOut env calls s.invoked s'.invoked
unfolding dispatch_entries
dispatch_entries-CarriedOut env [] s s' h =
    let same : s.invoked ≡ s'.invoked = ground arith in
    subst (CarriedOut env [] s.invoked) same CarriedOut.finished
dispatch_entries-CarriedOut env (call ∷ calls) s s' h =
    let (inner, d, h1) = >>=-eq-done (decode_calldata env call.calldata) _ h in
    let (flat, h2) = refuse_if-eq-done (is_batch inner) GovernanceError.invalid_calldata _ h1 in
    let (s1, e, h3) = >>=-eq-done (dispatch_operation env call.target inner s) _ h2 in
    CarriedOut.entry call inner (decoded (env.from_xdr call.calldata) inner d) flat
      (dispatch_operation-Calls env call.target inner s s1 e)
      (dispatch_entries-CarriedOut env calls s1 s' h3)
  where
    decoded :
        (o : Option CallData) (op : CallData)
        → or_failed o GovernanceError.invalid_calldata ≡ done op
        → o ≡ some op
    decoded (some op') op k = ground arith
    decoded none op k = absurd (ground arith)

-- A batch is carried out whole and in order, or not at all. The dispatch of a calldata that decodes to
-- a batch succeeds with the storage `s'` if and only if the batch has one to five entries, `s'` is
-- the storage before except for the calls made, and these are those of each entry in turn, on its own
-- target: an entry decodes to an operation that is not a batch, a no-op makes no call, and every
-- other operation makes the call of its function with its arguments, which returns.
pub batch_in_order :
    (env : Env) (target : Address) (calldata : Bytes) (entries : List ExecutionCall) (s s' : Store)
    → env.from_xdr calldata ≡ some (CallData.batch entries)
    → (dispatch_call env target calldata s ≡ done s') ↔ (
        (0 < length entries)
        × (length entries ≤ max_batch_calls)
        × (s' ≡ record s { invoked = s'.invoked })
        × CarriedOut env entries s.invoked s'.invoked)
unfolding dispatch_call dispatch_decoded
batch_in_order env target calldata entries s s' d = (forth, back)
  where
    forth :
        dispatch_call env target calldata s ≡ done s'
        → (0 < length entries)
          × (length entries ≤ max_batch_calls)
          × (s' ≡ record s { invoked = s'.invoked })
          × CarriedOut env entries s.invoked s'.invoked
    forth h =
        let h0 : dispatch_decoded env target (CallData.batch entries) s ≡ done s' = ground arith in
        let (some_entry, h1) =
          refuse_if-eq-done (length entries == 0) GovernanceError.invalid_calldata _ h0 in
        let (few, h2) =
          refuse_if-eq-done (ltb max_batch_calls (length entries)) GovernanceError.batch_too_large _
            h1 in
        (
          ground arith,
          ground arith,
          dispatch_call_frames env target calldata s s' h,
          dispatch_entries-CarriedOut env entries s s' h2,
        )

    back :
        (0 < length entries)
          × (length entries ≤ max_batch_calls)
          × (s' ≡ record s { invoked = s'.invoked })
          × CarriedOut env entries s.invoked s'.invoked
        → dispatch_call env target calldata s ≡ done s'
    back (nonempty, few, frame, carried) =
        let run : dispatch_entries env entries s ≡ done (record s { invoked = s'.invoked }) =
          CarriedOut-dispatch_entries env entries s s.invoked s'.invoked carried in
        ground (arith, run)
