-- ===== src/Operations/Tenants/Unchecked.antt =====
-- The handlers of backend/app/api/operations.py whose rows name nothing that the check is about.
use mathlib.Core.Path.{subst}
use cyclope_central.Base.{
  ℕ, String, ◌≡◌, Option, none, some, Option-cases, Bool-cases, inl, inr, not, is_in,
}
use cyclope_central.Base.Json.{Text}
use cyclope_central.Http.{ok, >>=-eq-ok, state-ok, raise_if, bad_request}
use cyclope_central.Session.{scalar}
use cyclope_central.Models.Tenant.{User}
use cyclope_central.Database.{Db, flush}
use cyclope_central.Auth.Roles.{require_permission}
use cyclope_central.Alerts.Evaluation.{has_text}
use cyclope_central.Operations.Documentation.{
  CompanyResponse, ArticleCreated, CompanyRequest, ArticleRequest, create_company, create_article,
  category_for, find_or_add_category, is_category, insert_category, insert_article,
}
use cyclope_central.Operations.Discovery.{
  DiscoveredCreated, DiscoveredDeviceRequest, create_discovered,
}
use cyclope_central.Operations.Reports.{
  TemplateCreated, RunCreated, ReportTemplateRequest, ReportRunRequest, report_types,
  insert_template, create_report_template, is_unsupported, insert_run, create_report_run,
}
use cyclope_central.Operations.Tenants.{IsTenantSafe, flush-IsTenantSafe, commit-IsTenantSafe}
use cyclope_central.Operations.Tenants.Rows.{store_others, store_template}
use cyclope_central.Operations.Assistant.{
  AnswerResponse, ai_query, answer_of, insert_conversation, insert_message, insert_insight,
}

module _ (current_id : ℕ) (current : User) (db : Db) (db' : Db) (s : IsTenantSafe db) where
  pub create_report_template-IsTenantSafe :
      (payload : ReportTemplateRequest) (template : TemplateCreated)
      → create_report_template payload current_id current db ≡ ok (template, db')
      → IsTenantSafe db'
  unfolding create_report_template insert_template
  create_report_template-IsTenantSafe payload template h =
      (let (u, p, g) = >>=-eq-ok (require_permission "reports:write" current) _ h in
        let (v, q, e) =
          >>=-eq-ok
            (raise_if (not (is_in payload.report_type report_types))
              (bad_request "Unsupported report type"))
            _ g in
        subst IsTenantSafe (state-ok e)
          (commit-IsTenantSafe current_id current _ _ _ _ _ (store_template db s _)))

  pub create_report_run-IsTenantSafe :
      (payload : ReportRunRequest) (run : RunCreated)
      → create_report_run payload current_id current db ≡ ok (run, db')
      → IsTenantSafe db'
  unfolding create_report_run insert_run
  create_report_run-IsTenantSafe payload run h =
      (let (u, p, g) = >>=-eq-ok (require_permission "reports:write" current) _ h in
        let (v, q, e) =
          >>=-eq-ok
            (raise_if (is_unsupported payload.report_type) (bad_request "Unsupported report type"))
            _ g in
        subst IsTenantSafe (state-ok e)
          (commit-IsTenantSafe current_id current _ _ _ _ _ (store_others db s _ _ _ _ _ _ _ _)))

  pub create_company-IsTenantSafe :
      (payload : CompanyRequest) (company : CompanyResponse)
      → create_company payload current_id current db ≡ ok (company, db')
      → IsTenantSafe db'
  unfolding create_company
  create_company-IsTenantSafe payload company h =
      (let (u, p, e) = >>=-eq-ok (require_permission "documentation:write" current) _ h in
        subst IsTenantSafe (state-ok e)
          (commit-IsTenantSafe current_id current _ _ _ _ _ (store_others db s _ _ _ _ _ _ _ _)))

  pub create_discovered-IsTenantSafe :
      (now : ℕ) (payload : DiscoveredDeviceRequest) (found : DiscoveredCreated)
      → create_discovered now payload current_id current db ≡ ok (found, db')
      → IsTenantSafe db'
  unfolding create_discovered
  create_discovered-IsTenantSafe now payload found h =
      (let (u, p, e) = >>=-eq-ok (require_permission "discovery:write" current) _ h in
        subst IsTenantSafe (state-ok e)
          (commit-IsTenantSafe current_id current _ _ _ _ _ (store_others db s _ _ _ _ _ _ _ _)))

  find_or_add_category-IsTenantSafe :
      (organization_id : ℕ) (name : String)
      → IsTenantSafe (find_or_add_category organization_id name db).1
  unfolding find_or_add_category insert_category
  find_or_add_category-IsTenantSafe organization_id name =
      elim (Option-cases (scalar (is_category organization_id name) db.operations.categories)) [
        | inl e ↦
            rw (find_or_add_category, e)
              (flush-IsTenantSafe (insert_category organization_id name db)
                (store_others db s _ _ _ _ _ _ _ _))
        | inr (c, e) ↦ rw (find_or_add_category, e) s
      ]

  category_for-IsTenantSafe :
      (organization_id : ℕ) (name : Option String)
      → IsTenantSafe (category_for organization_id name db).1
  unfolding category_for
  category_for-IsTenantSafe organization_id none = s
  category_for-IsTenantSafe organization_id (some name) = elim (Bool-cases (has_text (some name))) [
    | inl b ↦ rw b (find_or_add_category-IsTenantSafe organization_id name)
    | inr b ↦ rw b s
  ]

  pub create_article-IsTenantSafe :
      (now : ℕ) (payload : ArticleRequest) (article : ArticleCreated)
      → create_article now payload current_id current db ≡ ok (article, db')
      → IsTenantSafe db'
  unfolding create_article insert_article
  create_article-IsTenantSafe now payload article h =
      (let (u, p, e) = >>=-eq-ok (require_permission "documentation:write" current) _ h in
        subst IsTenantSafe (state-ok e) (
          commit-IsTenantSafe current_id current _ _ _ _ _ (
            store_others (category_for current.organization_id payload.category_name db).1
              (category_for-IsTenantSafe current.organization_id payload.category_name) _ _ _ _ _ _
              _ _)))

  pub ai_query-IsTenantSafe :
      (lower : Text → Text) (today : ℕ) (query : Text) (answer : AnswerResponse)
      → ai_query lower today query current_id current db ≡ ok (answer, db')
      → IsTenantSafe db'
  unfolding ai_query insert_conversation insert_message insert_insight
  ai_query-IsTenantSafe lower today query answer h =
      (let (u, p, e) = >>=-eq-ok (require_permission "ai:read" current) _ h in
        let org = current.organization_id in
        let text = answer_of today (lower query) current_id current db in
        let opened = insert_conversation current_id current query db in
        let asked = insert_message org db.next_id "user" query (flush opened) in
        let answered = insert_message org db.next_id "assistant" text asked in
        let opened-IsSafe = flush-IsTenantSafe opened (store_others db s _ _ _ _ _ _ _ _) in
        let asked-IsSafe = store_others (flush opened) opened-IsSafe _ _ _ _ _ _ _ _ in
        let answered-IsSafe = store_others asked asked-IsSafe _ _ _ _ _ _ _ _ in
        subst IsTenantSafe (state-ok e) (
          commit-IsTenantSafe current_id current _ _ _ _ _
            (store_others answered answered-IsSafe _ _ _ _ _ _ _ _)))
