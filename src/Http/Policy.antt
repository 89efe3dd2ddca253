-- ===== src/Http/Policy.antt =====
-- The access levels and the shape of a route, of internal/transport/http/routes.go. Of a route's
-- fields the texts of its documentation and its body types are left out; its handler is its name.
use boreas.Prelude.{ℕ, String, Bool, true, false, not, ◌||◌, List, [], ◌∷◌, ◌++◌, if◌then◌else◌}
use boreas.Core.Roles.{ProjectRole, absent, viewer, operator, member, owner, is_absent}

pub data Access : Type 0 where
  access_public access_authed access_session access_admin : Access
  access_viewer access_operator access_member access_owner : Access

-- `projectRoles`: the least role that a project-scoped level accepts; other levels are absent.
unfoldable pub project_roles : Access → ProjectRole
project_roles access_viewer = viewer
project_roles access_operator = operator
project_roles access_member = member
project_roles access_owner = owner
project_roles _ = absent

pub record ApiRoute : Type 0 where
  pub method : String
  pub path : String
  pub access : Access
  pub handler : String
  -- 0 is the zero value, for which 200 is documented.
  pub status : ℕ
  pub extra_errors : List ℕ
  pub quiet : Bool

abbrev pub api_route : String → String → Access → String → ℕ → List ℕ → Bool → ApiRoute
api_route method path access handler status extra_errors quiet = record {
  method = method;
  path = path;
  access = access;
  handler = handler;
  status = status;
  extra_errors = extra_errors;
  quiet = quiet;
}

abbrev pub is_public : Access → Bool
is_public access_public = true
is_public _ = false

abbrev pub needs_session : Access → Bool
needs_session access_session = true
needs_session _ = false

abbrev pub needs_admin : Access → Bool
needs_admin access_admin = true
needs_admin _ = false

abbrev pub is_project_scoped : Access → Bool
is_project_scoped a = not (is_absent (project_roles a))

abbrev pub when : Bool → ℕ → List ℕ
when test status = if test then status ∷ [] else []

-- `errorStatuses`: what the documentation lists.
unfoldable pub error_statuses : ApiRoute → List ℕ
unfolding project_roles
error_statuses r =
    when (not (is_public r.access)) 401
    ++ (when (is_project_scoped r.access || needs_session r.access || needs_admin r.access) 403
        ++ (r.extra_errors ++ (when (is_project_scoped r.access) 404 ++ 500 ∷ [])))
