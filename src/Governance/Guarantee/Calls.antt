-- ===== src/Governance/Guarantee/Calls.antt =====
-- The calls that the operations of contracts/governance/src/lib.rs stand for, and how they are
-- dispatched.
use Prim.Native.String.{String}
use perpetua_contracts.Prelude.{ℕ, Bool, ◌≡◌, true, false, some, subst, List, [], ◌∷◌, arith, refl}
use perpetua_contracts.Governance.Types.{
  Address, WasmHash, Argument, ExecutionCall, CallData, Invocation, done,
}
use perpetua_contracts.Governance.Host.{Env, Store}
use perpetua_contracts.Prelude.Int.{ℤ}
use perpetua_contracts.Governance.Dispatch.{invoke, is_batch, dispatch_operation, dispatch_entries}

-- The function of the target that an operation stands for, with its arguments.
pub data Asks : CallData → String → List Argument → Type 0 where
  stream_set_admin :
      (admin : Address)
      → Asks (CallData.stream_set_admin admin) "set_admin" (Argument.address admin ∷ [])
  stream_set_max_rate :
      (rate : ℤ)
      → Asks
          (CallData.stream_set_max_rate rate)
          "set_max_rate_per_second"
          (Argument.amount rate ∷ [])
  stream_global_resume : Asks CallData.stream_global_resume "global_resume" []
  stream_bulk_resume_as_admin :
      (ids : List ℕ)
      → Asks
          (CallData.stream_bulk_resume_as_admin ids)
          "bulk_resume_streams_as_admin"
          (Argument.words ids ∷ [])
  factory_set_admin :
      (admin : Address)
      → Asks (CallData.factory_set_admin admin) "set_admin" (Argument.address admin ∷ [])
  factory_set_cap :
      (cap : ℤ) → Asks (CallData.factory_set_cap cap) "set_cap" (Argument.amount cap ∷ [])
  factory_set_min_duration :
      (seconds : ℕ)
      → Asks
          (CallData.factory_set_min_duration seconds)
          "set_min_duration"
          (Argument.word seconds ∷ [])
  factory_set_allowlist :
      (recipient : Address) (allowed : Bool)
      → Asks
          (CallData.factory_set_allowlist recipient allowed)
          "set_allowlist"
          (Argument.address recipient ∷ Argument.flag allowed ∷ [])
  factory_set_stream_contract :
      (contract : Address)
      → Asks
          (CallData.factory_set_stream_contract contract)
          "set_stream_contract"
          (Argument.address contract ∷ [])
  factory_set_stream_wasm_hash :
      (hash : WasmHash)
      → Asks
          (CallData.factory_set_stream_wasm_hash hash)
          "set_stream_wasm_hash"
          (Argument.hash hash ∷ [])

-- The calls after an operation on `target`: a no-op has made none, and every other one has made the
-- call that it asks for, which has returned, on top of the calls `before`.
pub data Calls (env : Env) (target : Address) (before : List Invocation)
    : CallData → List Invocation → Type 0 where
  nothing : Calls env target before CallData.noop before
  one :
      (op : CallData) (function : String) (arguments : List Argument)
      → Asks op function arguments
      → env.returns before (record { target = target; function = function; arguments = arguments })
        ≡ true
      → Calls env target before op
          (record { target = target; function = function; arguments = arguments } ∷ before)

-- The entries have been carried out one after the other.
pub data CarriedOut (env : Env)
    : List ExecutionCall → List Invocation → List Invocation → Type 0 where
  finished : {calls : List Invocation} → CarriedOut env [] calls calls
  entry :
      {before between after : List Invocation} {rest : List ExecutionCall} (first : ExecutionCall)
      (op : CallData)
      → env.from_xdr first.calldata ≡ some op
      → is_batch op ≡ false
      → Calls env first.target before op between
      → CarriedOut env rest between after
      → CarriedOut env (first ∷ rest) before after

invoke-Calls :
    (env : Env) (target : Address) (op : CallData) (function : String) (arguments : List Argument)
    (s s' : Store)
    → Asks op function arguments
    → invoke env target function arguments s ≡ done s'
    → Calls env target s.invoked op s'.invoked
invoke-Calls env target op function arguments s s' asked h =
    let call : Invocation = record {
      target = target;
      function = function;
      arguments = arguments;
    } in
    let same : call ∷ s.invoked ≡ s'.invoked = ground arith in
    subst (Calls env target s.invoked op) same
      (Calls.one op function arguments asked (ground arith))

pub dispatch_operation-Calls :
    (env : Env) (target : Address) (op : CallData) (s s' : Store)
    → dispatch_operation env target op s ≡ done s'
    → Calls env target s.invoked op s'.invoked
unfolding dispatch_operation
dispatch_operation-Calls env target CallData.noop s s' h =
    let same : s.invoked ≡ s'.invoked = ground arith in
    subst (Calls env target s.invoked CallData.noop) same Calls.nothing
dispatch_operation-Calls env target (CallData.batch calls) s s' h = absurd (ground arith)
dispatch_operation-Calls env target (CallData.stream_set_admin a) s s' h =
    invoke-Calls env target _ _ _ s s' (Asks.stream_set_admin a) h
dispatch_operation-Calls env target (CallData.stream_set_max_rate r) s s' h =
    invoke-Calls env target _ _ _ s s' (Asks.stream_set_max_rate r) h
dispatch_operation-Calls env target CallData.stream_global_resume s s' h =
    invoke-Calls env target _ _ _ s s' Asks.stream_global_resume h
dispatch_operation-Calls env target (CallData.stream_bulk_resume_as_admin l) s s' h =
    invoke-Calls env target _ _ _ s s' (Asks.stream_bulk_resume_as_admin l) h
dispatch_operation-Calls env target (CallData.factory_set_admin a) s s' h =
    invoke-Calls env target _ _ _ s s' (Asks.factory_set_admin a) h
dispatch_operation-Calls env target (CallData.factory_set_cap c) s s' h =
    invoke-Calls env target _ _ _ s s' (Asks.factory_set_cap c) h
dispatch_operation-Calls env target (CallData.factory_set_min_duration n) s s' h =
    invoke-Calls env target _ _ _ s s' (Asks.factory_set_min_duration n) h
dispatch_operation-Calls env target (CallData.factory_set_allowlist a b) s s' h =
    invoke-Calls env target _ _ _ s s' (Asks.factory_set_allowlist a b) h
dispatch_operation-Calls env target (CallData.factory_set_stream_contract a) s s' h =
    invoke-Calls env target _ _ _ s s' (Asks.factory_set_stream_contract a) h
dispatch_operation-Calls env target (CallData.factory_set_stream_wasm_hash a) s s' h =
    invoke-Calls env target _ _ _ s s' (Asks.factory_set_stream_wasm_hash a) h

-- The storage `s` after the calls `calls`.
abbrev after_calls : Store → List Invocation → Store
after_calls s calls = record s { invoked = calls }

asked_dispatches :
    (env : Env) (target : Address) (op : CallData) (function : String) (arguments : List Argument)
    (s : Store)
    → Asks op function arguments
    → dispatch_operation env target op s ≡ invoke env target function arguments s
unfolding dispatch_operation
asked_dispatches env target _ _ _ s (Asks.stream_set_admin a) = refl
asked_dispatches env target _ _ _ s (Asks.stream_set_max_rate a) = refl
asked_dispatches env target _ _ _ s Asks.stream_global_resume = refl
asked_dispatches env target _ _ _ s (Asks.stream_bulk_resume_as_admin a) = refl
asked_dispatches env target _ _ _ s (Asks.factory_set_admin a) = refl
asked_dispatches env target _ _ _ s (Asks.factory_set_cap a) = refl
asked_dispatches env target _ _ _ s (Asks.factory_set_min_duration a) = refl
asked_dispatches env target _ _ _ s (Asks.factory_set_allowlist a b) = refl
asked_dispatches env target _ _ _ s (Asks.factory_set_stream_contract a) = refl
asked_dispatches env target _ _ _ s (Asks.factory_set_stream_wasm_hash a) = refl

Calls-dispatch_operation :
    (env : Env) (target : Address) (op : CallData) (s : Store) (before after : List Invocation)
    → Calls env target before op after
    → dispatch_operation env target op (after_calls s before) ≡ done (after_calls s after)
unfolding dispatch_operation
Calls-dispatch_operation env target op s before after Calls.nothing = refl
Calls-dispatch_operation env target op s before after (Calls.one _ f a asked returned) =
    rw (asked_dispatches env target op f a (after_calls s before) asked, returned) refl

pub CarriedOut-dispatch_entries :
    (env : Env) (calls : List ExecutionCall) (s : Store) (before after : List Invocation)
    → CarriedOut env calls before after
    → dispatch_entries env calls (after_calls s before) ≡ done (after_calls s after)
unfolding dispatch_entries
CarriedOut-dispatch_entries env [] s before after CarriedOut.finished = refl
CarriedOut-dispatch_entries env _ s before after
      (CarriedOut.entry {between = between} {rest = rest} first op decoded flat made later) =
    rw (decoded, flat, Calls-dispatch_operation env first.target op s before between made)
      (CarriedOut-dispatch_entries env rest s between after later)
