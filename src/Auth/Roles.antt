-- ===== src/Auth/Roles.antt =====
-- The roles and permissions of backend/app/core/security.py, and the dependency `require_permission`.
pub mod Order
use cyclope_central.Base.{String, List, [], ◌∷◌, ◌++◌, str_eq, is_in, if◌then◌else◌, not}
use cyclope_central.Http.{Result, forbidden, raise_if}
use cyclope_central.Models.Tenant.{User}

abbrev pub roles : List String
roles = "viewer" ∷ "technician" ∷ "admin" ∷ "owner" ∷ []

abbrev pub viewer_permissions : List String
viewer_permissions =
    "dashboard:read" ∷ "devices:read" ∷ "alerts:read" ∷ "jobs:read" ∷ "remote:read" ∷ "assets:read"
    ∷ "documentation:read" ∷ "discovery:read" ∷ "tickets:read" ∷ "reports:read" ∷ "ai:read" ∷ []

abbrev pub technician_permissions : List String
technician_permissions =
    "dashboard:read" ∷ "devices:read" ∷ "alerts:read" ∷ "alerts:acknowledge" ∷ "jobs:read"
    ∷ "jobs:create" ∷ "jobs:cancel" ∷ "remote:read" ∷ "remote:launch" ∷ "assets:read"
    ∷ "assets:write" ∷ "documentation:read" ∷ "discovery:read" ∷ "discovery:write" ∷ "tickets:read"
    ∷ "tickets:write" ∷ "reports:read" ∷ "ai:read" ∷ []

abbrev pub admin_permissions : List String
admin_permissions =
    "dashboard:read" ∷ "devices:read" ∷ "alerts:read" ∷ "alerts:acknowledge" ∷ "jobs:read"
    ∷ "jobs:create" ∷ "jobs:cancel" ∷ "notifications:manage" ∷ "enrollment_tokens:manage"
    ∷ "remote:read" ∷ "remote:launch" ∷ "remote:manage" ∷ "assets:read" ∷ "assets:write"
    ∷ "documentation:read" ∷ "documentation:write" ∷ "discovery:read" ∷ "discovery:write"
    ∷ "tickets:read" ∷ "tickets:write" ∷ "reports:read" ∷ "reports:write" ∷ "ai:read"
    ∷ "portal:manage" ∷ "automation:manage" ∷ "api_keys:manage" ∷ "platform:read" ∷ "backups:manage"
    ∷ []

abbrev pub owner_permissions : List String
owner_permissions =
    "dashboard:read" ∷ "devices:read" ∷ "alerts:read" ∷ "alerts:acknowledge" ∷ "jobs:read"
    ∷ "jobs:create" ∷ "jobs:cancel" ∷ "notifications:manage" ∷ "enrollment_tokens:manage"
    ∷ "users:manage" ∷ "organization:manage" ∷ "remote:read" ∷ "remote:launch" ∷ "remote:manage"
    ∷ "assets:read" ∷ "assets:write" ∷ "documentation:read" ∷ "documentation:write"
    ∷ "discovery:read" ∷ "discovery:write" ∷ "tickets:read" ∷ "tickets:write" ∷ "reports:read"
    ∷ "reports:write" ∷ "ai:read" ∷ "portal:manage" ∷ "automation:manage" ∷ "api_keys:manage"
    ∷ "platform:read" ∷ "backups:manage" ∷ []

-- `ROLE_PERMISSIONS.get(role, set())`
unfoldable pub role_permissions : String → List String
role_permissions role =
    if str_eq role "viewer"
    then viewer_permissions
    else if str_eq role "technician"
    then technician_permissions
    else if str_eq role "admin"
    then admin_permissions
    else if str_eq role "owner"
    then owner_permissions
    else []

-- The dependency that `require_role(*roles)` returns, on a user that is authenticated.
unfoldable pub require_role : List String → User → Result (Unit {0})
require_role allowed user = raise_if (not (is_in user.role allowed)) (forbidden "Insufficient role")

-- The dependency that `require_permission(permission)` returns, on a user that is authenticated.
unfoldable pub require_permission : String → User → Result (Unit {0})
unfolding role_permissions
require_permission permission user =
    raise_if (not (is_in permission (role_permissions user.role)))
      (forbidden "Insufficient permission")
