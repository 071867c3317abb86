-- ===== src/Operations/Documentation.antt =====
-- The documentation handlers of backend/app/api/operations.py. `ilike` is the database's comparison of
-- a text with a pattern.
pub mod Categories
use cyclope_central.Base.{
  ℕ, ◌+◌, String, Bool, true, ◌&&◌, ◌||◌, Option, none, some, List, [], ◌∷◌, ◌++◌, map, ◌==◌, leb,
  str_eq, if◌then◌else◌,
}
use cyclope_central.Base.Json.{Text}
use cyclope_central.Http.{Result, ok, ◌>>=◌, ◌>>◌}
use cyclope_central.Session.{scalar, select, add}
use cyclope_central.Session.Query.{order_by}
use cyclope_central.Models.Tenant.{User}
use cyclope_central.Models.Operations.{Company, DocumentationCategory, DocumentationArticle}
use cyclope_central.Database.{Db, flush}
use cyclope_central.Auth.Roles.{require_permission}
use cyclope_central.Alerts.Evaluation.{has_text}
use cyclope_central.Operations.{store, commit_audited}

pub record CompanyRequest : Type 0 where
  pub name : String
  pub notes : Option String

pub record ArticleRequest : Type 0 where
  pub title : Text
  pub body_markdown : Text
  pub company_id : Option ℕ
  pub category_name : Option String
  pub tags : List String

pub record CompanyResponse : Type 0 where
  pub id : ℕ
  pub name : String
  pub notes : Option String

unfoldable pub company_response : ℕ × Company → CompanyResponse
company_response (k, company) = record { id = k; name = company.name; notes = company.notes }

unfoldable pub list_companies : (String → String → Bool) → User → Db → Result (List CompanyResponse)
unfolding company_response
list_companies collates current db = do
  require_permission "documentation:read" current
  ok (
      map company_response (
        order_by (λ a b. collates a.1.name b.1.name)
          (select (λ k c. c.organization_id == current.organization_id) db.operations.companies)))

unfoldable pub create_company : CompanyRequest → ℕ → User → Db → Result (CompanyResponse × Db)
unfolding company_response store
create_company payload current_id current db = do
  require_permission "documentation:write" current
  let company : Company = record {
    organization_id = current.organization_id;
    name = payload.name;
    notes = payload.notes;
  }
  ok (
    company_response (db.next_id, company),
    commit_audited current_id current "company.created" "company" (some db.next_id) [] (
        store (record db.operations { companies = add db.next_id company db.operations.companies })
          db),
  )

pub record ArticleFound : Type 0 where
  pub id : ℕ
  pub title : Text
  pub body_markdown : Text
  pub tags : List String
  pub version : ℕ

unfoldable pub article_found : ℕ × DocumentationArticle → ArticleFound
article_found (k, a) = record {
  id = k;
  title = a.title;
  body_markdown = a.body_markdown;
  tags = a.tags;
  version = a.version;
}

-- `%q%` is the pattern of `q`; no `q`, or an empty one, asks for all
unfoldable pub article_matches : (Text → Text → Bool) → Option Text → DocumentationArticle → Bool
article_matches ilike none article = true
article_matches ilike (some []) article = true
article_matches ilike (some (c ∷ q)) article =
    let like = 37 ∷ ((c ∷ q) ++ (37 ∷ [])) in
    ilike article.title like || ilike article.body_markdown like

unfoldable pub search_articles :
    (Text → Text → Bool) → Option Text → User → Db → Result (List ArticleFound)
unfolding article_matches article_found
search_articles ilike q current db = do
  require_permission "documentation:read" current
  ok (
      map article_found (
        order_by (λ a b. leb b.1.updated_at a.1.updated_at)
          (select
            (λ k a. (a.organization_id == current.organization_id) && article_matches ilike q a)
            db.operations.articles)))

unfoldable pub is_category : ℕ → String → ℕ → DocumentationCategory → Bool
is_category organization_id name k category =
    (category.organization_id == organization_id) && str_eq category.name name

unfoldable pub new_category : ℕ → String → DocumentationCategory
new_category organization_id name = record { organization_id = organization_id; name = name }

unfoldable pub insert_category : ℕ → String → Db → Db
unfolding new_category store
insert_category organization_id name db =
    store
      (record db.operations {
        categories = add db.next_id (new_category organization_id name) db.operations.categories;
      })
      db

-- the category with that name, added where the organization has none
unfoldable pub find_or_add_category : ℕ → String → Db → ℕ × Db
unfolding is_category insert_category flush
find_or_add_category organization_id name db =
    elim (scalar (is_category organization_id name) db.operations.categories) [
      | none ↦ (db.next_id, flush (insert_category organization_id name db))
      | some (k, category) ↦ (k, db)
    ]

-- the category that a request names, if it names one
unfoldable pub category_for : ℕ → Option String → Db → Option ℕ × Db
unfolding find_or_add_category has_text
category_for organization_id none db = (none, db)
category_for organization_id (some name) db =
    if has_text (some name)
    then (
      some (find_or_add_category organization_id name db).0,
      (find_or_add_category organization_id name db).1,
    )
    else (none, db)

unfoldable pub new_article : ℕ → ℕ → Option ℕ → ArticleRequest → DocumentationArticle
new_article now organization_id category_id payload = record {
  organization_id = organization_id;
  company_id = payload.company_id;
  category_id = category_id;
  title = payload.title;
  body_markdown = payload.body_markdown;
  tags = payload.tags;
  version = 1;
  updated_at = now;
}

unfoldable pub insert_article : DocumentationArticle → Db → Db
unfolding store
insert_article article db =
    store (record db.operations { articles = add db.next_id article db.operations.articles }) db

pub record ArticleCreated : Type 0 where
  pub id : ℕ
  pub title : Text
  pub version : ℕ
  pub tags : List String

unfoldable pub create_article : ℕ → ArticleRequest → ℕ → User → Db → Result (ArticleCreated × Db)
unfolding category_for new_article insert_article
create_article now payload current_id current db = do
  require_permission "documentation:write" current
  let (category_id, db') = category_for current.organization_id payload.category_name db
  let article = new_article now current.organization_id category_id payload
  ok (
    record {
      id = db'.next_id;
      title = article.title;
      version = article.version;
      tags = article.tags;
    },
    commit_audited current_id current "documentation.article.created" "documentation_article"
        (some db'.next_id) [] (insert_article article db'),
  )
