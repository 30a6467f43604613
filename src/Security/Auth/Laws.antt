-- ===== src/Security/Auth/Laws.antt =====
-- Whom the authorization policy lets through.
use multi_agent_langgraph.Base.{
  ℕ, ◌≤◌, ◌<◌, ◌≡◌, ◌⊎◌, ◌↔◌, inl, inr, refl, arith, String, Bool, true, false, Option, none, some,
  string_key, ok, In, In-contains, contains-In, Bool-cases, Option-cases, leb,
}
use multi_agent_langgraph.Base.Dict.{lookup}
use multi_agent_langgraph.Security.Auth.{
  AuthContext, AuthRole, viewer, operator, admin, super_admin, role_rank, is_super_admin, decide,
  authorize, action_requirements, outside_team, granted,
}

pub record IsAuthorized (context : AuthContext) (required : AuthRole) (tenant_id : String)
    (team_id : Option String) (cross_tenant : Bool) : Type 0 where
  pub ranked : role_rank required ≤ role_rank context.role
  pub scoped :
      ((cross_tenant ≡ true) × (context.role ≡ super_admin))
      ⊎ ((cross_tenant ≡ false) × (context.tenant_id ≡ tenant_id))
  pub in_team :
      (team : String)
      → team_id ≡ some team
      → (context.role ≡ super_admin) ⊎ In team context.team_ids

super_admin_iff : (role : AuthRole) → is_super_admin role ≡ true → role ≡ super_admin
super_admin_iff viewer h = cc
super_admin_iff operator h = cc
super_admin_iff admin h = cc
super_admin_iff super_admin h = refl

module _ (context : AuthContext) (required : AuthRole) (tenant_id : String)
    (team_id : Option String) (cross_tenant : Bool) where
  abbrev allowed : Bool
  allowed = (decide context required tenant_id team_id cross_tenant).allowed

  decided : allowed ≡ true → IsAuthorized context required tenant_id team_id cross_tenant
  unfolding decide
  decided h = record {
    ranked = ground arith;
    scoped = elim (Bool-cases cross_tenant) [
      | inl x ↦ inl (x, super_admin_iff context.role (ground (arith, x)))
      | inr x ↦ inr (x, (string_key.beq_iff context.tenant_id tenant_id).0 (ground (arith, x)))
    ];
    in_team = λ team e. elim (Bool-cases (is_super_admin context.role)) [
      | inl s ↦ inl (super_admin_iff context.role s)
      | inr s ↦ inr (In-contains team context.team_ids (ground (arith, s, e)))
    ];
  }

  team_allowed :
      IsAuthorized context required tenant_id team_id cross_tenant
      → outside_team context team_id ≡ false
  team_allowed a = elim (Option-cases team_id) [
    | inl e ↦ ground (arith, e)
    | inr (team, e) ↦ elim (a.in_team team e) [
      | inl s ↦ ground (arith, e, s)
      | inr m ↦ ground (arith, e, contains-In team context.team_ids m)
    ]
  ]

  decides : IsAuthorized context required tenant_id team_id cross_tenant → allowed ≡ true
  unfolding decide
  decides a =
      let t = team_allowed a in
      let r = a.ranked in
      elim a.scoped [
        | inl (x, s) ↦ ground (arith, t, r, x, s)
        | inr (x, e) ↦ ground (arith, t, r, x, e, string_key.beq_iff context.tenant_id tenant_id)
      ]

  allowed-granted :
      allowed ≡ true → decide context required tenant_id team_id cross_tenant ≡ granted
  unfolding decide
  allowed-granted h = ground arith

  -- For an action that the policy knows, `authorize` allows it exactly when the session has not
  -- expired, the role is at least the one that the action requires, the tenant is the subject's own
  -- or a super admin acts across tenants, and the subject is in the team, if one is named, or is a
  -- super admin.
  pub authorize-IsAuthorized :
      (action : String) (now : ℕ)
      → lookup action action_requirements ≡ some required
      → ((authorize context action tenant_id team_id cross_tenant now
            ≡ ok (record { allowed = true; reason = none }))
          ↔ ((now < context.expires_at)
              × IsAuthorized context required tenant_id team_id cross_tenant))
  unfolding authorize
  authorize-IsAuthorized action now k = (
    λ h. elim (Bool-cases (leb context.expires_at now)) [
      | inl e ↦ ground (arith, e)
      | inr e ↦ (ground (arith, e), decided (ground (arith, e, k)))
    ],
    λ (live, a). ground (arith, live, k, allowed-granted (decides a)),
  )
