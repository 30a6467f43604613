-- ===== src/Github/Drift/Blocked.antt =====
-- A drift that the scan reports keeps tokens from being minted.
use multi_agent_langgraph.Base.{
  ℕ, ◌≡◌, arith, String, Bool, true, Option, some, List, [], ◌∷◌, In, first, later, Result, raise,
  runtime_error, string_key, ◌==◌, inl, inr, Option-cases, Bool-cases, Result-cases, not,
}
use multi_agent_langgraph.Base.Dict.{Dict}
use multi_agent_langgraph.Github.Permissions.{parse_github_permissions}
use multi_agent_langgraph.Github.Drift.{
  Installation, InstallationRepository, DriftEvent, scan_one, scan_all, mint,
}

module _ {S : Type 0} (repo : InstallationRepository S)
    (get_installation_permissions : Installation → Result (Dict String String))
    (hash_permissions : Dict String String → String) where
  abbrev blocked : String → S → Bool
  blocked id state = not (repo.acknowledged id state)

  abbrev scan_one' : Installation → S → Option DriftEvent × S
  scan_one' = scan_one repo get_installation_permissions hash_permissions

  scan_one-keeps :
      (id : String) (i : Installation) (before : S)
      → blocked id before ≡ true
      → blocked id (scan_one' i before).1 ≡ true
  unfolding scan_one
  scan_one-keeps id i before h = elim (Result-cases (get_installation_permissions i)) [
    | inr (error, e) ↦ ground (arith, e, h)
    | inl (raw, e) ↦
        elim (Bool-cases (hash_permissions (parse_github_permissions raw) == i.permissions_hash)) [
          | inl s ↦ ground (arith, e, s, h)
          | inr s ↦ ground (arith, e, s, repo.mark_drift-gives_none id i.installation_id before)
        ]
  ]

  scan_all-keeps :
      (id : String) (listed : List Installation) (before : S)
      → blocked id before ≡ true
      → blocked id (scan_all repo get_installation_permissions hash_permissions listed before).1
        ≡ true
  unfolding scan_all
  scan_all-keeps id [] before h = h
  scan_all-keeps id (i ∷ listed) before h =
      scan_all-keeps id listed (scan_one' i before).1 (scan_one-keeps id i before h)

  scan_one-event :
      (i : Installation) (before : S) (event : DriftEvent)
      → (scan_one' i before).0 ≡ some event
      → blocked event.installation_id (scan_one' i before).1 ≡ true
  unfolding scan_one
  scan_one-event i before event h = elim (Result-cases (get_installation_permissions i)) [
    | inr (error, e) ↦ ground (arith, e, h)
    | inl (raw, e) ↦
        elim (Bool-cases (hash_permissions (parse_github_permissions raw) == i.permissions_hash)) [
          | inl s ↦ ground (arith, e, s, h)
          | inr s ↦ ground (arith, e, s, h, repo.acknowledged-mark_drift i.installation_id before)
        ]
  ]

  abbrev FoundIn : List Installation → S → DriftEvent → Type 0
  FoundIn listed before event =
      In event (scan_all repo get_installation_permissions hash_permissions listed before).0

  abbrev BlockedBy : List Installation → S → DriftEvent → Type 0
  BlockedBy listed before event =
      blocked event.installation_id
        (scan_all repo get_installation_permissions hash_permissions listed before).1
      ≡ true

  found_or_later :
      (i : Installation) (listed : List Installation) (before : S) (event found : DriftEvent)
      → (scan_one' i before).0 ≡ some found
      → (FoundIn listed (scan_one' i before).1 event
          → BlockedBy listed (scan_one' i before).1 event)
      → In event (
          found
          ∷ (scan_all repo get_installation_permissions hash_permissions listed
              (scan_one' i before).1).0)
      → BlockedBy listed (scan_one' i before).1 event
  found_or_later i listed before event found e next first =
      scan_all-keeps event.installation_id listed (scan_one' i before).1
        (scan_one-event i before event e)
  found_or_later i listed before event found e next (later m) = next m

  scan_all-event :
      (listed : List Installation) (before : S) (event : DriftEvent)
      → FoundIn listed before event
      → BlockedBy listed before event
  unfolding scan_all
  scan_all-event [] before event m = elim m [ ]
  scan_all-event (i ∷ listed) before event m = elim (Option-cases (scan_one' i before).0) [
    | inl e ↦ scan_all-event listed (scan_one' i before).1 event (rw e at m)
    | inr (found, e) ↦
        found_or_later i listed before event found e
          (scan_all-event listed (scan_one' i before).1 event) (rw e at m)
  ]

  -- After a scan, no token is minted for an installation whose drift it reports, whatever Vault and
  -- GitHub answer, where the record that is minted from says what the installation repository says.
  pub mint-drifted :
      (listed : List Installation) (before : S) (event : DriftEvent)
      (read_secret : String → Result String) (build_app_jwt : String → String → Result String)
      (create_installation_token : ℕ → String → String → Result (Dict String String))
      (app_id path : String) (now : ℕ) (installation : Installation)
      → In event (scan_all repo get_installation_permissions hash_permissions listed before).0
      → installation.drift_acknowledged
        ≡ repo.acknowledged event.installation_id
            (scan_all repo get_installation_permissions hash_permissions listed before).1
      → mint read_secret build_app_jwt create_installation_token app_id path now installation
        ≡ raise (runtime_error "permission_drift_unacknowledged")
  unfolding mint
  mint-drifted listed before event read_secret build_app_jwt create app_id path now installation m
        h =
      ground (arith, scan_all-event listed before event m, h)
