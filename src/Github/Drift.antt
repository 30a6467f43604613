-- ===== src/Github/Drift.antt =====
-- integrations/github/drift.py and integrations/github/minting.py: the scan for changed permissions
-- and the tokens that it blocks. The installation repository, a protocol that the repository has no
-- class for, is an interface; GitHub's answers, the Vault, the signing of a token and the hash are
-- parameters.
pub mod Blocked
use multi_agent_langgraph.Base.{
  ℕ, ◌+◌, String, Bool, true, false, not, Option, none, some, List, [], ◌∷◌, ◌==◌, string_key,
  if◌then◌else◌, Result, ok, raise, ◌>>=◌, runtime_error, ◌≡◌,
}
use multi_agent_langgraph.Base.Dict.{Dict, get_or}
use multi_agent_langgraph.Github.Permissions.{parse_github_permissions}

pub record Installation : Type 0 where
  pub installation_id : String
  pub tenant_id : String
  pub team_id : String
  pub github_installation_id : ℕ
  pub github_base_url : String
  pub permissions_hash : String
  pub drift_acknowledged : Bool

pub record DriftEvent : Type 0 where
  pub installation_id : String
  pub tenant_id : String
  pub team_id : String
  pub previous_hash : String
  pub current_hash : String
  pub current_permissions : Dict String String

-- `InstallationRepository`, its state of type S: what it marks, and whether the installation that it
-- keeps under an identifier has its drift acknowledged. A mark takes the acknowledgement away and
-- gives none.
pub record InstallationRepository (S : Type 0) : Type 0 where
  pub mark_drift : String → S → S
  pub acknowledged : String → S → Bool
  pub acknowledged-mark_drift : (id : String) (s : S) → acknowledged id (mark_drift id s) ≡ false
  pub mark_drift-gives_none :
      (id other : String) (s : S)
      → acknowledged id s ≡ false
      → acknowledged id (mark_drift other s) ≡ false

pub record InstallationToken : Type 0 where
  pub token : String
  pub expires_at_epoch : ℕ
  pub installation_id : String
  pub tenant_id : String
  pub team_id : String

module _ {S : Type 0} (repo : InstallationRepository S)
    (get_installation_permissions : Installation → Result (Dict String String))
    (hash_permissions : Dict String String → String) where
  abbrev event_of : Installation → Dict String String → DriftEvent
  event_of installation parsed = record {
    installation_id = installation.installation_id;
    tenant_id = installation.tenant_id;
    team_id = installation.team_id;
    previous_hash = installation.permissions_hash;
    current_hash = hash_permissions parsed;
    current_permissions = parsed;
  }

  abbrev compared : Installation → Result (Dict String String) → S → Option DriftEvent × S
  compared installation (raise error) state = (none, state)
  compared installation (ok raw) state =
      let parsed = parse_github_permissions raw in
      if hash_permissions parsed == installation.permissions_hash
      then (none, state)
      else (some (event_of installation parsed), repo.mark_drift installation.installation_id state)

  -- An error of GitHub is logged, and the installation stays as it is.
  unfoldable pub scan_one : Installation → S → Option DriftEvent × S
  scan_one installation state =
      compared installation (get_installation_permissions installation) state

  abbrev add_event : Option DriftEvent → List DriftEvent → List DriftEvent
  add_event none events = events
  add_event (some event) events = event ∷ events

  unfoldable pub scan_all : List Installation → S → List DriftEvent × S
  scan_all [] state = ([], state)
  scan_all (installation ∷ listed) state =
      let found = scan_one installation state in
      let rest = scan_all listed found.1 in (add_event found.0 rest.0, rest.1)

module _ (read_secret : String → Result String) (build_app_jwt : String → String → Result String)
    (create_installation_token : ℕ → String → String → Result (Dict String String)) where
  unfoldable pub mint : String → String → ℕ → Installation → Result InstallationToken
  mint app_id vault_private_key_path now installation =
      if not installation.drift_acknowledged
      then raise (runtime_error "permission_drift_unacknowledged")
      else do
        private_key_pem ← read_secret vault_private_key_path
        jwt_token ← build_app_jwt private_key_pem app_id
        response ←
            create_installation_token installation.github_installation_id jwt_token
              installation.github_base_url
        if get_or "token" response "" == ""
            then raise (runtime_error "empty_token_from_github")
            else ok (record {
              token = get_or "token" response "";
              expires_at_epoch = now + 3600;
              installation_id = installation.installation_id;
              tenant_id = installation.tenant_id;
              team_id = installation.team_id;
            })
