-- ===== src/Github/BranchProtection/Meaning.antt =====
-- When the branch protection check passes.
use multi_agent_langgraph.Base.{
  ◌≡◌, refl, ◌↔◌, arith, String, Bool, true, false, not, ◌&&◌, some, List, [], ◌∷◌, ◌++◌, is_empty,
  In, first, later, all, all-holds, Option-cases, inl, inr,
}
use multi_agent_langgraph.Github.Json.{Items, Fields, get, has_text}
use multi_agent_langgraph.Github.BranchProtection.{
  BranchProtectionConfig, Verifier, is_set, is_enabled, contexts_of, when, missing_checks,
  find_missing_protections, verify,
}

-- The protection of a branch has what the configuration demands.
pub record IsProtected (raw : Fields) (config : BranchProtectionConfig) : Type 0 where
  pub reviewed :
      config.require_review ≡ true → is_set (get "required_pull_request_reviews" raw) ≡ true
  pub signed :
      config.require_signed_commits ≡ true → is_enabled (get "required_signatures" raw) ≡ true
  pub linear :
      config.require_linear_history ≡ true → is_enabled (get "required_linear_history" raw) ≡ true
  pub checked :
      (check : String)
      → In check config.required_status_checks
      → has_text check (contexts_of (get "required_status_checks" raw)) ≡ true

is_empty-append {ℓ} :
    {A : Type ℓ} (xs ys : List A) → is_empty (xs ++ ys) ≡ (is_empty xs && is_empty ys)
is_empty-append [] ys = refl
is_empty-append (x ∷ xs) ys = refl

is_empty-when : (b : Bool) (name : String) → is_empty (when b name) ≡ not b
is_empty-when true name = refl
is_empty-when false name = refl

abbrev is_configured : Items → String → Bool
is_configured configured check = has_text check configured

is_empty-missing_checks :
    (configured : Items) (checks : List String)
    → is_empty (missing_checks configured checks) ≡ all (is_configured configured) checks
unfolding missing_checks all
is_empty-missing_checks configured [] = refl
is_empty-missing_checks configured (check ∷ checks) =
    ground (arith, is_empty-missing_checks configured checks)

holds-all :
    (p : String → Bool) (xs : List String) → ((x : String) → In x xs → p x ≡ true) → all p xs ≡ true
unfolding all
holds-all p [] f = refl
holds-all p (x ∷ xs) f =
    let here = f x first in
    let rest = holds-all p xs (λ y m. f y (later m)) in ground (arith, here, rest)

module _ (raw : Fields) (config : BranchProtectionConfig) where
  -- The four demands as the code tests them.
  abbrev meets : Bool
  meets =
      not (config.require_review && not (is_set (get "required_pull_request_reviews" raw)))
      && (not (config.require_signed_commits && not (is_enabled (get "required_signatures" raw)))
          && (not (
                config.require_linear_history
                && not (is_enabled (get "required_linear_history" raw)))
              && all (is_configured (contexts_of (get "required_status_checks" raw)))
                  config.required_status_checks))

  is_empty-find_missing_protections : is_empty (find_missing_protections raw config) ≡ meets
  unfolding find_missing_protections
  is_empty-find_missing_protections = rw (
    is_empty-append, is_empty-append, is_empty-append, is_empty-when, is_empty-when, is_empty-when,
    is_empty-missing_checks,
  )

  IsProtected-meets : meets ≡ true → IsProtected raw config
  IsProtected-meets h = record {
    reviewed = λ r. ground arith;
    signed = λ r. ground arith;
    linear = λ r. ground arith;
    checked = λ check m.
        all-holds (is_configured (contexts_of (get "required_status_checks" raw)))
          config.required_status_checks check (ground arith) m;
  }

  meets-IsProtected : IsProtected raw config → meets ≡ true
  meets-IsProtected p =
      let checked = holds-all _ config.required_status_checks p.checked in
      ground (arith, checked, p.reviewed, p.signed, p.linear)

-- The check of a branch passes exactly when the API answers and the protection that it gives has what
-- the configuration demands: reviews, signatures, linear history and every required status check.
pub verify-IsProtected :
    (verifier : Verifier) (repo branch token url : String) (config : BranchProtectionConfig)
    → ((verify verifier repo branch token url config).passed ≡ true)
      ↔ ((raw : Fields) × (verifier.api repo branch token url ≡ some raw) × IsProtected raw config)
unfolding verify
verify-IsProtected verifier repo branch token url config = (
  λ h. elim (Option-cases (verifier.api repo branch token url)) [
    | inl failed ↦ absurd (ground arith)
    | inr (raw, answered) ↦ (
      raw,
      answered,
      IsProtected-meets raw config (ground (arith, is_empty-find_missing_protections raw config)),
    )
  ],
  λ (raw, answered, p).
      let empty = is_empty-find_missing_protections raw config in
      let met = meets-IsProtected raw config p in ground (arith, answered, empty, met),
)
