-- ===== src/Alerts/Rules/Complete.antt =====
-- The table of rules that `ensure_default_alert_rules` of backend/app/core/alerts.py hands to
-- `evaluate_device_alerts`, and its lookups in it.
use text.Mathlib.TextPositions.{eq_refl}
use cyclope_central.Base.{
  ℕ, String, Bool, ◌≡◌, refl, true, List, [], ◌∷◌, ◌++◌, is_some, All, Bool-cases, inl, inr,
}
use cyclope_central.Models.Device.{Device}
use cyclope_central.Models.Alert.{Float, AlertRule}
use cyclope_central.Database.{Db}
use cyclope_central.Alerts.Rules.{
  AlertSettings, RuleDefinition, RuleTable, rule_at, new_rule, insert_rule, ensure_rules,
  default_rule_definitions, organization_rules, ensure_default_alert_rules,
}
use cyclope_central.Alerts.Evaluation.{RuleResult, MemoryReport}
use cyclope_central.Alerts.Raising.{evaluations}

abbrev pub HasRule : RuleTable → RuleDefinition → Type 0
HasRule rules definition = is_some (rule_at definition.key rules) ≡ true

rule_at-append :
    (key : String) (t s : RuleTable)
    → is_some (rule_at key t) ≡ true
    → is_some (rule_at key (t ++ s)) ≡ true
unfolding rule_at
rule_at-append key [] s h = cc
rule_at-append key ((k, rule) ∷ t) s h = elim (Bool-cases (is_some (rule_at key t))) [
  | inl e ↦ rw (rule_at, rule_at-append key t s e) (rule_at-append key t s e)
  | inr e ↦ elim (Bool-cases (is_some (rule_at key (t ++ s)))) [
    | inl f ↦ rw (rule_at, f) f
    | inr f ↦ rw (rule_at, f) (rw (rule_at, e) at h)
  ]
]

rule_at-new :
    (t : RuleTable) (k : ℕ) (rule : AlertRule)
    → is_some (rule_at rule.rule_key (t ++ (k, rule) ∷ [])) ≡ true
unfolding rule_at
rule_at-new [] k rule = rw (eq_refl rule.rule_key) refl
rule_at-new ((j, r) ∷ t) k rule = rw (rule_at, rule_at-new t k rule) (rule_at-new t k rule)

module _ (organization_id : ℕ) where
  ensure_rules-keeps :
      (key : String) (definitions : List RuleDefinition) (rules : RuleTable) (db : Db)
      → is_some (rule_at key rules) ≡ true
      → is_some (rule_at key (ensure_rules organization_id definitions rules db).0) ≡ true
  unfolding ensure_rules
  ensure_rules-keeps key [] rules db h = h
  ensure_rules-keeps key (d ∷ rest) rules db h = elim (Bool-cases (is_some (rule_at d.key rules))) [
    | inl e ↦ rw (ensure_rules, e) (ensure_rules-keeps key rest rules db h)
    | inr e ↦
        (let rule = new_rule organization_id d in
          rw (ensure_rules, e)
            (ensure_rules-keeps key rest (rules ++ (db.next_id, rule) ∷ []) (insert_rule rule db)
              (rule_at-append key rules ((db.next_id, rule) ∷ []) h)))
  ]

  ensure_rules-HasRule :
      (definitions : List RuleDefinition) (rules : RuleTable) (db : Db) (result : RuleTable)
      → (ensure_rules organization_id definitions rules db).0 ≡ result
      → All (HasRule result) definitions
  unfolding ensure_rules
  ensure_rules-HasRule [] rules db result h = tt
  ensure_rules-HasRule (d ∷ rest) rules db result h =
      elim (Bool-cases (is_some (rule_at d.key rules))) [
        | inl e ↦
            (let g : (ensure_rules organization_id rest rules db).0 ≡ result =
                rw (ensure_rules, e) at h in
              (
                rw (← g) (ensure_rules-keeps d.key rest rules db e),
                ensure_rules-HasRule rest rules db result g,
              ))
        | inr e ↦
            (let rule = new_rule organization_id d in
              let grown = rules ++ (db.next_id, rule) ∷ [] in
              let g : (ensure_rules organization_id rest grown (insert_rule rule db)).0 ≡ result =
                rw (ensure_rules, e) at h in
              let n : is_some (rule_at d.key grown) ≡ true =
                unfold new_rule in rule_at-new rules db.next_id rule in
              (
                rw (← g) (ensure_rules-keeps d.key rest grown (insert_rule rule db) n),
                ensure_rules-HasRule rest grown (insert_rule rule db) result g,
              ))
      ]

module _ (settings : AlertSettings) (percent : ℕ → ℕ → Float) (round_2 : Float → Float)
    (float_lt : Float → Float → Bool) (is_zero : Float → Bool) where
  -- Every lookup that `evaluate_device_alerts` makes in the table of rules it starts from finds a rule:
  -- the table has one under the key of each of the evaluations that it runs.
  pub default_rules_are_found :
      (now device_id : ℕ) (device : Device) (report : MemoryReport) (db : Db)
      → All
          (λ (e : String × (AlertRule → RuleResult)).
            is_some (rule_at e.0 (ensure_default_alert_rules settings device.organization_id db).0)
            ≡ true)
          (evaluations settings percent round_2 float_lt is_zero now device_id device report
            (ensure_default_alert_rules settings device.organization_id db).1)
  unfolding ensure_default_alert_rules evaluations default_rule_definitions
  default_rules_are_found now device_id device report db =
      (let definitions = default_rule_definitions settings in
        let org = device.organization_id in
        ensure_rules-HasRule org definitions (organization_rules org db) db
          (ensure_rules org definitions (organization_rules org db) db).0 refl)
