-- ===== src/Http/Authorize.antt =====
-- `bearerToken`, `authorize` and `publishing` of internal/transport/http, and how `APIHandler` puts
-- them around a handler. A handler is an action that gives the status it wrote.
pub mod Documented
pub mod Laws
use text.Mathlib.Text.{◌==◌ as text_eq}
use boreas.Prelude.{
  ℕ, suc, String, Bool, true, false, not, ◌&&◌, ◌||◌, Option, none, some, ltb, ◌==◌, if◌then◌else◌,
}
use boreas.Prelude.Text.{cut_text, trim_space}
use boreas.Core.Enums.{TokenKind, session, api}
use boreas.Core.Errors.{Err, Result, ok, err, err_forbidden}
use boreas.Core.Roles.{ProjectRole, rank}
use boreas.Core.Model.{User, ProjectAccess, is_admin}
use boreas.App.{Env, World, App, lift, pure, fail, ◌>>=◌, ◌>>◌}
use boreas.Auth.Tokens.{authenticate}
use boreas.Project.Access.{access}
use boreas.Http.Policy.{
  Access, ApiRoute, project_roles, is_public, needs_session, needs_admin, is_project_scoped,
}
use boreas.Http.Errors.{kind_status}

abbrev pub token_of : Option String → String
token_of none = ""
token_of (some value) = trim_space value

-- The token of an Authorization header; "" where it is not a bearer's.
unfoldable pub bearer_token : String → String
unfolding cut_text
bearer_token header = token_of (cut_text "Bearer " header)

-- What a request says of itself: its header and the wildcards of its path.
pub record Request : Type 0 where
  pub authorization : String
  pub project : String
  pub name : String

abbrev is_session : TokenKind → Bool
is_session session = true
is_session api = false

-- The level of the caller is too low for any project.
abbrev pub falls_short : Access → User → TokenKind → Bool
falls_short required user kind =
    (needs_admin required && not (is_admin user))
    || (needs_session required && not (is_session kind))

module _ (env : Env) where
  -- The access of a project-scoped route, whose role is high enough.
  unfoldable pub reach : Access → Request → User → App Err (Option ProjectAccess)
  unfolding access project_roles
  reach required request user =
      if is_project_scoped required
      then (do
        acc ← access env user request.project request.name
        if ltb (rank acc.role) (rank (project_roles required))
            then fail err_forbidden
            else pure (some acc))
      else pure none

  -- What the context of the handler holds, where the request is let in.
  unfoldable pub authorize : Access → Request → App Err (User × Option ProjectAccess)
  unfolding authenticate bearer_token reach
  authorize required request = do
    caller ← authenticate env (bearer_token request.authorization)
    if falls_short required caller.0 caller.1
        then fail err_forbidden
        else (do acc ← reach required request caller.0; pure (caller.0, acc))

  -- The status of an answer, and whether the streams were woken.
  abbrev pub Answer : Type 0
  Answer = ℕ × Bool

  abbrev written : ℕ → ℕ
  written status = if status == 0 then 200 else status

  -- `publishing`: a status below 400 is a change.
  abbrev pub published : ApiRoute → ℕ → Answer
  published r status =
      (written status, not (text_eq r.method "GET") && not r.quiet && ltb (written status) 400)

  abbrev next_with :
      ApiRoute
      → (Option (User × Option ProjectAccess) → World → ℕ × World)
      → Result Err (User × Option ProjectAccess) × World
      → Answer × World
  next_with r next (ok found, w) =
      let (status, w') = next (some found) w in (published r status, w')
  next_with r next (err e, w) = ((kind_status e.kind, false), w)

  -- A request on a route of the table; the handler gets no context on a public route.
  unfoldable pub handle :
      ApiRoute
      → (Option (User × Option ProjectAccess) → World → ℕ × World)
      → Request
      → World
      → Answer × World
  unfolding authorize kind_status
  handle r next request w =
      if is_public r.access
      then (let (status, w') = next none w in ((written status, false), w'))
      else next_with r next (authorize r.access request w)
