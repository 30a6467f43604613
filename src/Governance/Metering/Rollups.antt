-- ===== src/Governance/Metering/Rollups.antt =====
-- The totals of `build_hourly_rollups` and `reconcile`, and those of the usage records.
use multi_agent_langgraph.Base.{
  ℕ, ◌+◌, ◌≡◌, refl, sym, ap, ◌∙◌, arith, String, List, [], ◌∷◌, ◌++◌, map, ◌==◌, if◌then◌else◌,
  length, Option-cases, inl, inr,
}
use multi_agent_langgraph.Base.Dict.{
  Dict, lookup, insert, lookup-insert, get_or, values, sum_of, sum_of-insert, at_found,
}
use multi_agent_langgraph.Base.Int.{sub_ℕ}
use multi_agent_langgraph.Governance.Metering.{
  UsageRecord, HourlyUsageRollup, GroupKey, group_key_eq, group_key, empty_rollup, add_usage, group,
  filtered_records, build_hourly_rollups, reconcile,
}

-- What a rollup counts, of a record and of a rollup.
pub data Measure : Type 0 where
  requests input_tokens output_tokens actual_cost usages : Measure

abbrev pub of_record : Measure → UsageRecord → ℕ
of_record requests r = r.request_count
of_record input_tokens r = r.input_tokens
of_record output_tokens r = r.output_tokens
of_record actual_cost r = r.actual_cost_usd
of_record usages r = 1

abbrev pub of_rollup : Measure → HourlyUsageRollup → ℕ
of_rollup requests rollup = rollup.request_count
of_rollup input_tokens rollup = rollup.total_input_tokens
of_rollup output_tokens rollup = rollup.total_output_tokens
of_rollup actual_cost rollup = rollup.total_actual_cost_usd
of_rollup usages rollup = length rollup.usage_ids

-- The records of one group.
abbrev pub group_total : Measure → GroupKey → List UsageRecord → ℕ
group_total m key [] = 0
group_total m key (r ∷ records) =
    (if group_key r == key then of_record m r else 0) + group_total m key records

length-snoc {ℓ} : {A : Type ℓ} (xs : List A) (x : A) → length (xs ++ x ∷ []) ≡ length xs + 1
length-snoc [] x = omega arith
length-snoc (y ∷ xs) x = let rest = length-snoc xs x in omega (arith, rest)

of_rollup-add_usage :
    (isoformat : ℕ → String) (m : Measure) (r : UsageRecord) (rollup : HourlyUsageRollup)
    → of_rollup m (add_usage isoformat r rollup) ≡ of_rollup m rollup + of_record m r
of_rollup-add_usage isoformat usages r rollup = length-snoc rollup.usage_ids r.usage_id
of_rollup-add_usage isoformat requests r rollup = refl
of_rollup-add_usage isoformat input_tokens r rollup = refl
of_rollup-add_usage isoformat output_tokens r rollup = refl
of_rollup-add_usage isoformat actual_cost r rollup = refl

of_rollup-empty_rollup :
    (isoformat : ℕ → String) (m : Measure) (r : UsageRecord)
    → of_rollup m (empty_rollup isoformat r) ≡ 0
of_rollup-empty_rollup isoformat requests r = refl
of_rollup-empty_rollup isoformat input_tokens r = refl
of_rollup-empty_rollup isoformat output_tokens r = refl
of_rollup-empty_rollup isoformat actual_cost r = refl
of_rollup-empty_rollup isoformat usages r = refl

module _ (isoformat : ℕ → String) (m : Measure) where
  of_rollup-get_or :
      (r : UsageRecord) (groups : Dict GroupKey HourlyUsageRollup)
      → of_rollup m (get_or (group_key r) groups (empty_rollup isoformat r))
        ≡ at_found (of_rollup m) (lookup (group_key r) groups)
  of_rollup-get_or r groups = elim (Option-cases (lookup (group_key r) groups)) [
    | inl absent ↦ rw (absent, of_rollup-empty_rollup isoformat m r)
    | inr (rollup, there) ↦ rw there
  ]

  rollups_total-group :
      (records : List UsageRecord) (groups : Dict GroupKey HourlyUsageRollup)
      → sum_of (of_rollup m) (values (group isoformat records groups))
        ≡ sum_of (of_rollup m) (values groups) + sum_of (of_record m) records
  unfolding group sum_of
  rollups_total-group [] groups = omega arith
  rollups_total-group (r ∷ records) groups =
      let rollup = get_or (group_key r) groups (empty_rollup isoformat r) in
      let next = add_usage isoformat r rollup in
      omega (
        arith,
        rollups_total-group records (insert (group_key r) next groups),
        sum_of-insert (of_rollup m) (group_key r) next groups,
        of_rollup-add_usage isoformat m r rollup,
        of_rollup-get_or r groups,
      )

  of_found-group :
      (key : GroupKey) (records : List UsageRecord) (groups : Dict GroupKey HourlyUsageRollup)
      → at_found (of_rollup m) (lookup key (group isoformat records groups))
        ≡ at_found (of_rollup m) (lookup key groups) + group_total m key records
  unfolding group sum_of
  of_found-group key [] groups = omega arith
  of_found-group key (r ∷ records) groups =
      let rollup = get_or (group_key r) groups (empty_rollup isoformat r) in
      let next = add_usage isoformat r rollup in
      ground (
        arith,
        of_found-group key records (insert (group_key r) next groups),
        lookup-insert (group_key r) key next groups,
        group_key_eq.beq_iff (group_key r) key,
        of_rollup-add_usage isoformat m r rollup,
        of_rollup-get_or r groups,
      )

  -- Each measure of the rollup of a group is the total over the records of that group.
  pub group_total-lookup :
      (key : GroupKey) (records : List UsageRecord)
      → at_found (of_rollup m) (lookup key (group isoformat records [])) ≡ group_total m key records
  unfolding lookup
  group_total-lookup key records = let e = of_found-group key records [] in omega (arith, e)

  -- The rollups of a period count what the usage records of the tenant in that period count: requests,
  -- input and output tokens, actual cost, and one usage id for each record.
  pub rollups_total-build_hourly_rollups :
      (tenant_id : String) (period_start period_end : ℕ) (records : List UsageRecord)
      → sum_of
          (of_rollup m)
          (build_hourly_rollups isoformat tenant_id period_start period_end records)
        ≡ sum_of (of_record m) (filtered_records tenant_id period_start period_end records)
  unfolding build_hourly_rollups sum_of
  rollups_total-build_hourly_rollups tenant_id period_start period_end records =
      let e = rollups_total-group (filtered_records tenant_id period_start period_end records) [] in
      omega (arith, e)

length-map {ℓ} :
    {A : Type ℓ} (f : UsageRecord → A) (records : List UsageRecord)
    → length (map f records) ≡ sum_of (of_record usages) records
unfolding sum_of
length-map f [] = refl
length-map f (r ∷ records) = let e = length-map f records in omega (arith, e)

-- The metered total that `reconcile` reports is the cost of the rollups of the period, its drift is
-- the reported total less that, and it names as many usages as those rollups do.
pub reconcile_total :
    (isoformat : ℕ → String) (tenant_id : String) (period_start period_end reported : ℕ)
    (records : List UsageRecord)
    → let result = reconcile isoformat tenant_id period_start period_end reported records in
      let rollups = build_hourly_rollups isoformat tenant_id period_start period_end records in
      (result.metered_total_usd ≡ sum_of (of_rollup actual_cost) rollups)
      × (result.drift_amount_usd ≡ sub_ℕ reported (sum_of (of_rollup actual_cost) rollups))
      × (length result.usage_ids ≡ sum_of (of_rollup usages) rollups)
unfolding reconcile
reconcile_total isoformat tenant_id period_start period_end reported records =
    let metered = filtered_records tenant_id period_start period_end records in
    let cost =
      rollups_total-build_hourly_rollups isoformat actual_cost tenant_id period_start period_end
        records in
    let ids =
      rollups_total-build_hourly_rollups isoformat usages tenant_id period_start period_end
        records in
    (sym cost, ap (λ n. sub_ℕ reported n) (sym cost), length-map _ metered ∙ sym ids)
