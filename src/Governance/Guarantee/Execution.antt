-- ===== src/Governance/Guarantee/Execution.antt =====
-- `is_executable` of contracts/governance/src/lib.rs beside `execute`.
use perpetua_contracts.Prelude.{
  ℕ, ◌≡◌, ◌≢◌, ◌⊎◌, inl, inr, true, false, none, some, arith, Option-cases, get_or,
}
use perpetua_contracts.Governance.Types.{
  Address, Proposal, GovernanceError, EntryKey, done, failed, Outcome-cases,
}
use perpetua_contracts.Governance.Host.{Env, Store}
use perpetua_contracts.Governance.Storage.{bump_active_entry, bump_proposal_retention}
use perpetua_contracts.Governance.Proposals.{check_executable, run_proposal, execute}
use perpetua_contracts.Governance.Views.{
  is_executable, is_proposal_executable, is_quorum_executable,
}

module _ (env : Env) (id : ℕ) (p : Proposal) (s : Store) where
  pub is_proposal_executable-checks :
      check_executable env id p s ≡ done tt → is_proposal_executable env id p s ≡ done true
  unfolding check_executable is_proposal_executable is_quorum_executable
  is_proposal_executable-checks h = elim (Option-cases (s.quorum_reached_at id)) [
    | inl e ↦ absurd (ground arith)
    | inr (info, e) ↦ ground arith
  ]

  pub checks-is_proposal_executable :
      is_proposal_executable env id p s ≡ done true → check_executable env id p s ≡ done tt
  unfolding check_executable is_proposal_executable is_quorum_executable
  checks-is_proposal_executable h = elim (Option-cases (s.quorum_reached_at id)) [
    | inl e ↦ absurd (ground arith)
    | inr (info, e) ↦ ground arith
  ]

  checks_end :
      (check_executable env id p s ≡ done tt)
      ⊎ ((code : GovernanceError) × (check_executable env id p s ≡ failed code))
  unfolding check_executable
  checks_end = elim (Outcome-cases (check_executable env id p s)) [
    | inl (x, e) ↦ inl e
    | inr (inl e) ↦ absurd (ground arith)
    | inr (inr f) ↦ inr f
  ]

-- The storage after the entries of the proposal have been renewed.
abbrev pub renewed : Env → ℕ → Proposal → Store → Store
renewed env id p s =
    bump_active_entry env (EntryKey.quorum_reached_at id) p.status
      (bump_proposal_retention env id p.status s)

module _ (env : Env) (executor : Address) (id : ℕ) (s : Store)
    (signed : env.authorized executor ≡ true) (idle : get_or s.executing false ≡ false) where
  missing :
      s.proposals id ≡ none
      → (is_executable env id s ≢ done true)
        × (execute env executor id s ≡ failed GovernanceError.proposal_not_found)
  unfolding is_executable execute
  missing e = (λ h. ground arith, ground arith)

  passes :
      (p : Proposal)
      → s.proposals id ≡ some p
      → check_executable env id p (bump_proposal_retention env id p.status s) ≡ done tt
      → (is_executable env id s ≡ done true)
        × (execute env executor id s ≡ run_proposal env executor id p (renewed env id p s))
  unfolding is_executable execute
  passes p e checked =
      let t =
        is_proposal_executable-checks env id p (bump_proposal_retention env id p.status s)
          checked in
      (ground arith, ground arith)

  stops :
      (p : Proposal) (code : GovernanceError)
      → s.proposals id ≡ some p
      → check_executable env id p (bump_proposal_retention env id p.status s) ≡ failed code
      → (is_executable env id s ≢ done true) × (execute env executor id s ≡ failed code)
  unfolding is_executable execute
  stops p code e checked = (
    λ h.
        let t =
          checks-is_proposal_executable env id p (bump_proposal_retention env id p.status s)
            (ground arith) in
        ground arith,
    ground arith,
  )

  -- `is_executable` says what `execute` would do: for a caller who signs, outside an execution, it
  -- is true where `execute` goes on to run the proposal, and everywhere else `execute` ends with a
  -- typed error.
  pub is_executable_agrees :
      ((is_executable env id s ≡ done true)
        × (p : Proposal) × (s.proposals id ≡ some p)
        × (execute env executor id s ≡ run_proposal env executor id p (renewed env id p s)))
      ⊎ ((is_executable env id s ≢ done true)
          × (code : GovernanceError) × (execute env executor id s ≡ failed code))
  is_executable_agrees = elim (Option-cases (s.proposals id)) [
    | inl e ↦ let (a, b) = missing e in inr (a, GovernanceError.proposal_not_found, b)
    | inr (p, e) ↦ elim (checks_end env id p (bump_proposal_retention env id p.status s)) [
      | inl checked ↦ let (a, b) = passes p e checked in inl (a, p, e, b)
      | inr (code, checked) ↦ let (a, b) = stops p code e checked in inr (a, code, b)
    ]
  ]
