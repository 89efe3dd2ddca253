-- ===== src/Http/Authorize/Laws.antt =====
-- Who gets past `authorize`, and what an answer wakes.
use text.Mathlib.Text.{◌==◌ as text_eq}
use boreas.Prelude.{
  ℕ, ◌≤◌, ◌<◌, String, ◌≡◌, inl, inr, Bool, true, false, not, Option, none, some, find, arith,
}
use boreas.Core.Enums.{TokenKind}
use boreas.Core.Errors.{ok, Result-cases}
use boreas.Core.Roles.{rank}
use boreas.Core.Model.{User, ProjectAccess, is_admin}
use boreas.Store.Db.{Db}
use boreas.Store.Members.{is_member}
use boreas.App.{Env, World}
use boreas.Auth.Tokens.{authenticate}
use boreas.Project.Access.{access}
use boreas.Project.Access.Laws.{
  access-IsProjectAt, access-role, IsProjectAt, IsHigher, member_role, grant_part,
}
use boreas.Http.Policy.{Access, ApiRoute, project_roles, is_public, is_project_scoped}
use boreas.Http.Authorize.{Request, bearer_token, reach, authorize, falls_short, handle}

authenticate_reads :
    (env : Env) (token : String) (w : World) → (authenticate env token w).1.db ≡ w.db
unfolding authenticate
authenticate_reads env token w = ground arith

-- The access of a caller who is let into a project.
abbrev pub IsReached : Access → Request → User → Db → ProjectAccess → Type 0
IsReached required request user db acc =
    (rank (project_roles required) ≤ rank acc.role)
    × IsProjectAt db request.project acc.project
    × (is_admin user ≡ false
        → IsHigher (member_role (find (is_member acc.project.id user.id) db.members))
            (grant_part db acc.project.id user.id request.name) acc.role)

abbrev pub HasReach : Access → Request → User → Db → Option ProjectAccess → Type 0
HasReach required request user db none = is_project_scoped required ≡ false
HasReach required request user db (some acc) = IsReached required request user db acc

reach_ok :
    (env : Env) (required : Access) (request : Request) (user : User) (w : World)
    (acc : Option ProjectAccess)
    → (reach env required request user w).0 ≡ ok acc
    → HasReach required request user w.db acc
unfolding reach
reach_ok env required request user w none h =
    elim (Result-cases (access env user request.project request.name w).0) [
      | inl (a, e) ↦ ground (arith, e)
      | inr (x, e) ↦ ground (arith, e)
    ]
reach_ok env required request user w (some acc) h =
    elim (Result-cases (access env user request.project request.name w).0) [
      | inl (a, e) ↦
          let same : a ≡ acc = ground (arith, e) in
          let reached : (access env user request.project request.name w).0 ≡ ok acc =
            rw (← same) e in
          (
            ground (arith, e, same),
            access-IsProjectAt env w user request.project request.name acc reached,
            λ a. (access-role env w user request.project request.name acc reached a).1,
          )
      | inr (x, e) ↦ absurd (ground (arith, e))
    ]

-- Whatever the database answers, a request gets past `authorize` only with the token of an enabled
-- user; as an administrator where the route wants one, and with a login session where it wants
-- that; and on a route of a project only where the table has the project that the path names, with a
-- role in it that is high enough, which for a caller who is no administrator is the higher of those
-- of the membership row and of the grants for the named task.
pub authorize_sound :
    (env : Env) (required : Access) (request : Request) (w : World) (user : User)
    (acc : Option ProjectAccess)
    → (authorize env required request w).0 ≡ ok (user, acc)
    → (kind : TokenKind) × ((authenticate env (bearer_token request.authorization) w).0
        ≡ ok (user, kind))
      × (falls_short required user kind ≡ false)
      × HasReach required request user w.db acc
unfolding authorize
authorize_sound env required request w user acc h =
    elim (Result-cases (authenticate env (bearer_token request.authorization) w).0) [
      | inl ((u, kind), e) ↦
          let w1 = (authenticate env (bearer_token request.authorization) w).1 in
          let same_db : w1.db ≡ w.db =
            authenticate_reads env (bearer_token request.authorization) w in
          elim (Result-cases (reach env required request u w1).0) [
            | inl (a, ea) ↦
                let who : u ≡ user = ground (arith, e, ea) in
                let what : a ≡ acc = ground (arith, e, ea) in
                let enough : falls_short required u kind ≡ false = ground (arith, e, ea) in
                let got = reach_ok env required request u w1 a ea in
                (kind, rw (← who) e, rw (← who) enough, rw (← who, ← what, ← same_db) got)
            | inr (x, ex) ↦ ground (arith, e, ex)
          ]
      | inr (x, e) ↦ ground (arith, e)
    ]

abbrev pub is_write : ApiRoute → Bool
is_write r = not (text_eq r.method "GET")

-- A request wakes the streams only on a route that is not public, whose method is not GET and which
-- is not quiet, with an answer below 400, and only where `authorize` lets it in and the handler ran
-- with what `authorize` found.
pub handle_publishes :
    (env : Env) (r : ApiRoute) (next : Option (User × Option ProjectAccess) → World → ℕ × World)
    (request : Request) (w : World)
    → (handle env r next request w).0.1 ≡ true
    → (is_public r.access ≡ false)
      × (is_write r ≡ true)
      × (r.quiet ≡ false)
      × ((handle env r next request w).0.0 < 400)
      × ((found : User × Option ProjectAccess) × ((authorize env r.access request w).0 ≡ ok found)
          × ((handle env r next request w).1
              ≡ (next (some found) (authorize env r.access request w).1).1))
unfolding handle
handle_publishes env r next request w h = elim (Result-cases (authorize env r.access request w).0) [
  | inl (found, e) ↦ (
    ground (arith, e),
    ground (arith, e),
    ground (arith, e),
    ground (arith, e),
    (found, e, ground (arith, e)),
  )
  | inr (x, e) ↦ ground (arith, e)
]
