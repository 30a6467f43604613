-- ===== src/ControlPlane/Agents/Allowlist.antt =====
-- What a dry run that is allowed says of the tools.
use multi_agent_langgraph.Base.{
  ◌≡◌, refl, arith, String, Bool, true, false, not, List, [], ◌∷◌, In, contains, contains-In,
  In-contains, select, select-In, is_empty, is_empty-sorted, is_empty-append_if, string_key, ok,
  raise, Result, inl, inr, Bool-cases, sym, ◌∙◌, append_if,
}
use multi_agent_langgraph.Governance.Catalog.{Catalog, DeploymentProfile}
use multi_agent_langgraph.ControlPlane.Agents.{
  AgentConfigVersion, AgentDryRunResult, AgentValidationResult, unique, difference, lacks, dry_run,
  validate, runtime_role_tool_allowlist, config_errors, invalid_tools, checked, dry_run_of,
}

contains-unique : (x : String) (xs : List String) → contains x (unique xs) ≡ contains x xs
unfolding contains unique
contains-unique x [] = refl
contains-unique x (y ∷ ys) = elim (Bool-cases (contains y (unique ys))) [
  | inl e ↦ ground (arith, e, string_key.beq_iff y x, contains-unique x ys)
  | inr e ↦ ground (arith, e, string_key.beq_iff y x, contains-unique x ys)
]

none_left :
    (p : String → Bool) (xs : List String) (x : String)
    → is_empty (select p xs) ≡ true
    → In x xs
    → p x ≡ false
none_left p xs x h m = elim (Bool-cases (p x)) [
  | inr e ↦ e
  | inl e ↦ filled (select p xs) h (select-In p x xs m e)
]
  where
    filled : (ys : List String) → is_empty ys ≡ true → In x ys → p x ≡ false
    filled [] h m = elim m [ ]
    filled (y ∷ ys) h m = cc

difference-empty :
    (xs ys : List String) (x : String) → is_empty (difference xs ys) ≡ true → In x xs → In x ys
unfolding difference
difference-empty xs ys x h m =
    let there = In-contains x (unique xs) (contains-unique x xs ∙ contains-In x xs m) in
    let kept =
      none_left (lacks ys) (unique xs) x (sym (is_empty-sorted (select (lacks ys) (unique xs))) ∙ h)
        there in
    In-contains x ys (ground (arith, kept))

peel :
    (condition : Bool) (x : String) (xs : List String)
    → is_empty (append_if condition x xs) ≡ true
    → (condition ≡ false) × (is_empty xs ≡ true)
peel condition x xs h = ground (arith, is_empty-append_if condition x xs, h)

-- A configuration whose checks find no error grants only what its role may have.
config_errors-grants :
    (config : AgentConfigVersion) (errors : List String) (tool : String)
    → is_empty (config_errors config errors) ≡ true
    → In tool config.allowed_tools
    → In tool (runtime_role_tool_allowlist config.agent_role)
unfolding config_errors
config_errors-grants config errors tool h m =
    let granted : not (is_empty (invalid_tools config)) ≡ false =
      (peel _ _ _ (peel _ _ _ (peel _ _ _ (peel _ _ _ (peel _ _ _ h).1).1).1).1).0 in
    difference-empty config.allowed_tools (runtime_role_tool_allowlist config.agent_role) tool
      (ground (arith, granted)) m

validated-grants :
    (config : AgentConfigVersion) (checked_errors : Result (List String)) (tool : String)
    (validation : AgentValidationResult)
    → checked config checked_errors ≡ ok validation
    → validation.valid ≡ true
    → In tool config.allowed_tools
    → In tool (runtime_role_tool_allowlist config.agent_role)
validated-grants config (raise error) tool validation h v m = cc
validated-grants config (ok errors) tool validation h v m =
    config_errors-grants config errors tool (ground (arith, h, v)) m

-- What a validation that succeeds says of the tools.
abbrev Grants : AgentConfigVersion → Result AgentValidationResult → Type 0
Grants config validated =
    (validation : AgentValidationResult)
    → validated ≡ ok validation
    → validation.valid ≡ true
    → (tool : String) → In tool config.allowed_tools
    → In tool (runtime_role_tool_allowlist config.agent_role)

dry_run_of-Grants :
    (config : AgentConfigVersion) (requested : List String) (tool : String)
    (validated : Result AgentValidationResult) (result : AgentDryRunResult)
    → Grants config validated
    → dry_run_of config requested validated ≡ ok result
    → result.allowed ≡ true
    → In tool requested
    → In tool (runtime_role_tool_allowlist config.agent_role)
dry_run_of-Grants config requested tool (raise error) result c h a m = cc
dry_run_of-Grants config requested tool (ok validation) result c h a m =
    elim (Bool-cases validation.valid) [
      | inr e ↦ ground (arith, e, h, a)
      | inl e ↦
          c validation refl e tool
            (difference-empty requested config.allowed_tools tool (ground (arith, e, h, a)) m)
    ]

-- A dry run that is allowed asks only for tools that the allow-list has for the role of the agent.
pub dry_run-allowed :
    (config : AgentConfigVersion) (requested_tools : List String) (profile : DeploymentProfile)
    (catalog : Catalog) (result : AgentDryRunResult) (tool : String)
    → dry_run config requested_tools profile catalog ≡ ok result
    → result.allowed ≡ true
    → In tool requested_tools
    → In tool (runtime_role_tool_allowlist config.agent_role)
unfolding dry_run validate
dry_run-allowed config requested_tools profile catalog result tool h a m =
    dry_run_of-Grants config requested_tools tool _ result
      (λ v e ok_v t n. validated-grants config _ t v e ok_v n) h a m
