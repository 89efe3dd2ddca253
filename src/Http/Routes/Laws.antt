-- ===== src/Http/Routes/Laws.antt =====
-- What the table of routes demands.
use mathlib.Core.List.{Memᴰ}
use text.Mathlib.Text.{◌==◌ as text_eq}
use boreas.Prelude.{◌≡◌, refl, Bool, true, not, ◌&&◌, ◌||◌, all, leb, if◌then◌else◌}
use boreas.Prelude.Find.{all_sound}
use boreas.Prelude.Text.{contains_text, has_prefix, cut_text}
use boreas.Core.Roles.{rank}
use boreas.Http.Policy.{
  ApiRoute, project_roles, is_public, is_project_scoped, needs_session, needs_admin,
}
use boreas.Http.Routes.{route_table}

-- A path that names a project is held to a role in it, and no other path is.
abbrev pub scoped_by_path : ApiRoute → Bool
scoped_by_path r =
    if contains_text "{project}" r.path
    then is_project_scoped r.access
    else not (is_project_scoped r.access)

scoped_table : all scoped_by_path route_table ≡ true
unfolding contains_text project_roles
scoped_table = refl

abbrev is_get : ApiRoute → Bool
is_get r = text_eq r.method "GET"

-- Nobody writes without a token, but to sign in.
abbrev pub writes_need_token : ApiRoute → Bool
writes_need_token r =
    is_get r
    || not (is_public r.access)
    || text_eq r.handler "login"
    || text_eq r.handler "claimPairing"

-- What changes a task or what is on it demands operator; who may reach it is its owners' to say.
abbrev pub task_writes_need_role : ApiRoute → Bool
task_writes_need_role r =
    is_get r
    || not (contains_text "{name}" r.path)
    || leb (if contains_text "/grants" r.path then 4 else 2) (rank (project_roles r.access))

-- Users and registry credentials are the administrators', but for a user's picture; API tokens and
-- conversations want a login session.
abbrev pub account_routes_guarded : ApiRoute → Bool
account_routes_guarded r =
    (not (has_prefix "/api/v1/users" r.path || has_prefix "/api/v1/registry-credentials" r.path)
      || needs_admin r.access
      || text_eq r.handler "getAvatar")
    && (not (has_prefix "/api/v1/auth/tokens" r.path || has_prefix "/api/v1/bora" r.path)
        || needs_session r.access)

writes_table : all writes_need_token route_table ≡ true
unfolding project_roles
writes_table = refl

task_table : all task_writes_need_role route_table ≡ true
unfolding contains_text project_roles rank
task_table = refl

account_table : all account_routes_guarded route_table ≡ true
unfolding contains_text cut_text
account_table = refl

-- Of every route of the table: it demands a role in a project exactly where its path names one; it
-- is public only if it reads or signs in; it demands operator where it writes on a task, and owner
-- where it changes the task's grants; users and credentials demand an administrator but for a
-- user's picture; API tokens and conversations demand a login session.
pub route_policy :
    (r : ApiRoute)
    → Memᴰ r route_table
    → (scoped_by_path r ≡ true)
      × (writes_need_token r ≡ true)
      × (task_writes_need_role r ≡ true)
      × (account_routes_guarded r ≡ true)
route_policy r m = (
  all_sound scoped_by_path m scoped_table,
  all_sound writes_need_token m writes_table,
  all_sound task_writes_need_role m task_table,
  all_sound account_routes_guarded m account_table,
)
