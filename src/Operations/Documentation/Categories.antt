-- ===== src/Operations/Documentation/Categories.antt =====
-- The categories of articles: `create_article` of backend/app/api/operations.py adds one only where the
-- organization has none of that name.
use mathlib.Core.Path.{subst}
use text.Mathlib.TextEquality.{eq_iff}
use cyclope_central.Base.{
  ℕ, ◌≤◌, ◌≡◌, sym, String, ◌&&◌, Option, none, some, arith, ◌==◌, str_eq, Bool-cases, Option-cases,
  inl, inr,
}
use cyclope_central.Http.{ok, >>=-eq-ok, state-ok}
use cyclope_central.Session.{Table, scalar, add, flush as flush_table, IsClean}
use cyclope_central.Session.Query.{count}
use cyclope_central.Session.Laws.{flush-IsClean, flush-idem_of_IsClean}
use cyclope_central.Session.Counts.{count-flush-add, count-none}
use cyclope_central.Models.Tenant.{User}
use cyclope_central.Models.Operations.{DocumentationCategory, flush_operations}
use cyclope_central.Database.{Db, flush, add_audit}
use cyclope_central.Auth.Roles.{require_permission}
use cyclope_central.Alerts.Evaluation.{has_text}
use cyclope_central.Operations.{audit, store, commit_audited}
use cyclope_central.Operations.Documentation.{
  ArticleCreated, ArticleRequest, is_category, new_category, insert_category, find_or_add_category,
  category_for, insert_article, create_article,
}

-- Nothing is pending in the table of categories, and no organization has two of one name.
pub record IsCatalogue (t : Table DocumentationCategory) : Type 0 where
  pub clean : IsClean t
  pub unique :
      (organization_id : ℕ) (name : String) → count (is_category organization_id name) t ≤ 1

module _ (k org : ℕ) (name : String) (t : Table DocumentationCategory) where
  added_is_unique :
      IsCatalogue t
      → scalar (is_category org name) t ≡ none
      → (o : ℕ) (n : String)
      → count (is_category o n) (flush_table (add k (new_category org name) t)) ≤ 1
  unfolding is_category new_category
  added_is_unique c free o n =
      rw (count-flush-add (is_category o n) k (new_category org name) t c.clean)
        (elim (Bool-cases ((org == o) && str_eq name n)) [
          | inl b ↦
              (let same_org : org ≡ o = ground arith in
                let same_name : name ≡ n = (eq_iff name n).0 (ground arith) in
                let nothing =
                  subst (λ m. count (is_category o m) t ≡ 0) same_name
                    (subst (λ m. count (is_category m name) t ≡ 0) same_org
                      (count-none (is_category org name) t free)) in
                rw (b, nothing) (omega arith))
          | inr b ↦ rw b (omega (arith, c.unique o n))
        ])

find_or_add_category-IsCatalogue :
    (org : ℕ) (name : String) (db : Db)
    → IsCatalogue db.operations.categories
    → IsCatalogue (find_or_add_category org name db).1.operations.categories
unfolding find_or_add_category insert_category store flush flush_operations
find_or_add_category-IsCatalogue org name db c =
    elim (Option-cases (scalar (is_category org name) db.operations.categories)) [
      | inl e ↦
          rw (find_or_add_category, e)
            (record {
              clean =
                  flush-IsClean (add db.next_id (new_category org name) db.operations.categories);
              unique = added_is_unique db.next_id org name db.operations.categories c e;
            })
      | inr (k, e) ↦ rw (find_or_add_category, e) c
    ]

category_for-IsCatalogue :
    (org : ℕ) (name : Option String) (db : Db)
    → IsCatalogue db.operations.categories
    → IsCatalogue (category_for org name db).1.operations.categories
unfolding category_for
category_for-IsCatalogue org none db c = c
category_for-IsCatalogue org (some name) db c = elim (Bool-cases (has_text (some name))) [
  | inl b ↦ rw b (find_or_add_category-IsCatalogue org name db c)
  | inr b ↦ rw b c
]

-- An article that is created, with the name of a category or without one, leaves no organization with
-- two categories of one name, if none had two before and nothing was pending in that table; and nothing
-- is pending in it afterwards.
pub create_article-IsCatalogue :
    (now : ℕ) (payload : ArticleRequest) (current_id : ℕ) (current : User) (db : Db)
    (article : ArticleCreated) (db' : Db)
    → IsCatalogue db.operations.categories
    → create_article now payload current_id current db ≡ ok (article, db')
    → IsCatalogue db'.operations.categories
unfolding create_article insert_article store commit_audited audit add_audit flush flush_operations
create_article-IsCatalogue now payload current_id current db article db' c h =
    (let (u, p, e) = >>=-eq-ok (require_permission "documentation:write" current) _ h in
      let named = category_for current.organization_id payload.category_name db in
      let kept = category_for-IsCatalogue current.organization_id payload.category_name db c in
      let same = flush-idem_of_IsClean named.1.operations.categories kept.clean in
      subst (λ d. IsCatalogue d.operations.categories) (state-ok e)
        (subst IsCatalogue (sym same) kept))
