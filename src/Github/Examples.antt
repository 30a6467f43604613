-- ===== src/Github/Examples.antt =====
-- The branch protection check on one answer of GitHub.
use multi_agent_langgraph.Github.Drift.Blocked.{mint-drifted}
use multi_agent_langgraph.Github.Drift.{
  Installation, InstallationRepository, DriftEvent, scan_one, scan_all, mint,
}
use multi_agent_langgraph.Github.Permissions.{parse_github_permissions}
use multi_agent_langgraph.Base.Dict.{Dict}
use multi_agent_langgraph.Base.{
  ◌≡◌, ◌↔◌, refl, true, false, some, [], ◌∷◌, String, List, In, first, not, contains, string_key,
  Result, ok, raise, runtime_error, arith,
}
use multi_agent_langgraph.Github.Json.{
  Fields, end, field, object, array, text, cons, nil, bool, get, has_text, truthy,
}
use multi_agent_langgraph.Github.BranchProtection.{
  BranchProtectionConfig, Verifier, verify, find_missing_protections, build_evidence,
}
use multi_agent_langgraph.Github.BranchProtection.Meaning.{IsProtected, verify-IsProtected}

abbrev protection : Fields
protection =
    field "required_pull_request_reviews"
      (object (field "required_approving_review_count" (bool true) end))
      (field "required_status_checks" (object (field "contexts" (array (cons (text "ci") nil)) end))
        end)

abbrev verifier : Verifier
verifier = record { api = λ repo branch token url. some protection; shadow_mode = false }

abbrev config : BranchProtectionConfig
config = record {
  required_status_checks = "ci" ∷ [];
  require_review = true;
  require_signed_commits = false;
  require_linear_history = false;
}

passes : (verify verifier "org/repo" "main" "" "" config).passed ≡ true
unfolding verify find_missing_protections get has_text truthy build_evidence
passes = refl

verify-IsProtected_example :
    ((verify verifier "org/repo" "main" "" "" config).passed ≡ true)
    ↔ ((raw : Fields) × (verifier.api "org/repo" "main" "" "" ≡ some raw) × IsProtected raw config)
verify-IsProtected_example = verify-IsProtected verifier "org/repo" "main" "" "" config

marked_self : (id : String) (marked : List String) → not (contains id (id ∷ marked)) ≡ false
unfolding contains
marked_self id marked = ground (arith, string_key.beq_iff id id)

marked_other :
    (id other : String) (marked : List String)
    → not (contains id marked) ≡ false
    → not (contains id (other ∷ marked)) ≡ false
unfolding contains
marked_other id other marked h = ground (arith, h)

-- An installation repository that remembers the identifiers that it has marked.
abbrev marks : InstallationRepository (List String)
marks = record {
  mark_drift = λ id marked. id ∷ marked;
  acknowledged = λ id marked. not (contains id marked);
  acknowledged-mark_drift = λ id marked. marked_self id marked;
  mark_drift-gives_none = λ id other marked h. marked_other id other marked h;
}

abbrev installation : Installation
installation = record {
  installation_id = "i1";
  tenant_id = "t";
  team_id = "team";
  github_installation_id = 1;
  github_base_url = "https://api.github.com";
  permissions_hash = "old";
  drift_acknowledged = false;
}

abbrev permissions_now : Installation → Result (Dict String String)
permissions_now i = ok (("contents", "write") ∷ [])

abbrev hash_now : Dict String String → String
hash_now permissions = "new"

abbrev drift : DriftEvent
drift = record {
  installation_id = "i1";
  tenant_id = "t";
  team_id = "team";
  previous_hash = "old";
  current_hash = "new";
  current_permissions = ("contents", "write") ∷ [];
}

scan_run : scan_all marks permissions_now hash_now (installation ∷ []) [] ≡ (drift ∷ [], "i1" ∷ [])
unfolding scan_all scan_one parse_github_permissions
scan_run = refl

drift_found : In drift (scan_all marks permissions_now hash_now (installation ∷ []) []).0
drift_found = rw scan_run first

still_blocked :
    installation.drift_acknowledged
    ≡ marks.acknowledged "i1" (scan_all marks permissions_now hash_now (installation ∷ []) []).1
unfolding contains
still_blocked = rw scan_run refl

mint-drifted_example :
    mint
      (λ path. ok "key")
      (λ key app. ok "jwt")
      (λ id jwt url. ok (("token", "x") ∷ []))
      "app"
      "path"
      5
      installation
    ≡ raise (runtime_error "permission_drift_unacknowledged")
mint-drifted_example =
    mint-drifted marks permissions_now hash_now (installation ∷ []) [] drift (λ path. ok "key")
      (λ key app. ok "jwt") (λ id jwt url. ok (("token", "x") ∷ [])) "app" "path" 5 installation
      drift_found still_blocked
