-- ===== src/Http/Authorize/Documented.antt =====
-- What a request that `authorize` refuses is answered.
use boreas.Prelude.Find.{any-append}
use boreas.Prelude.{
  ℕ, String, ◌≡◌, refl, inl, inr, Bool, true, false, not, ◌||◌, List, [], ◌∷◌, ◌++◌, arith, any,
  ◌==◌, Bool-cases, ◌⊎◌,
}
use boreas.Core.Errors.{Err, ok, err, Result-cases}
use boreas.Core.Names.{validate_project_slug}
use boreas.Core.Model.{User, Project}
use boreas.Store
use boreas.App.{Env, World}
use boreas.Auth.Tokens.{authenticate}
use boreas.Project.Access.{access, member_access, get_project, granted_role}
use boreas.Http.Policy.{
  when, Access, ApiRoute, is_public, is_project_scoped, error_statuses, needs_session, needs_admin,
}
use boreas.Http.Errors.{kind_status}
use boreas.Http.Authorize.{Request, bearer_token, reach, authorize, falls_short}

-- The kinds of error that a refused token has.
authenticate_kind :
    (env : Env) (token : String) (w : World) (e : Err)
    → (authenticate env token w).0 ≡ err e
    → (kind_status e.kind == 401 || kind_status e.kind == 500) ≡ true
unfolding authenticate kind_status Store.Tokens.get_by_hash Store.Users.get
authenticate_kind env token w e h = ground arith

member_access_kind :
    (env : Env) (actor : User) (name : String) (project : Project) (w : World) (e : Err)
    → (member_access env actor name project w).0 ≡ err e
    → (kind_status e.kind == 404 || kind_status e.kind == 500) ≡ true
unfolding member_access granted_role kind_status Store.Members.get_member Store.Grants.role
    Store.Grants.any_in_project
member_access_kind env actor name project w e h = ground arith

get_project_kind :
    (env : Env) (slug : String) (w : World) (e : Err)
    → validate_project_slug slug ≡ ok tt
    → (get_project env slug w).0 ≡ err e
    → (kind_status e.kind == 404 || kind_status e.kind == 500) ≡ true
unfolding get_project kind_status Store.Projects.get_by_slug
get_project_kind env slug w e v h = ground (arith, v)

access_kind :
    (env : Env) (actor : User) (slug name : String) (w : World) (e : Err)
    → validate_project_slug slug ≡ ok tt
    → (access env actor slug name w).0 ≡ err e
    → (kind_status e.kind == 404 || kind_status e.kind == 500) ≡ true
unfolding access
access_kind env actor slug name w e v h = elim (Result-cases (get_project env slug w).0) [
  | inl (project, ep) ↦
      ground (arith, ep, member_access_kind env actor name project (get_project env slug w).1 e)
  | inr (x, ex) ↦ ground (arith, ex, get_project_kind env slug w e v)
]

reach_kind :
    (env : Env) (required : Access) (request : Request) (user : User) (w : World) (e : Err)
    → validate_project_slug request.project ≡ ok tt
    → (reach env required request user w).0 ≡ err e
    → (is_project_scoped required ≡ true)
      × ((kind_status e.kind == 403 || kind_status e.kind == 404 || kind_status e.kind == 500)
          ≡ true)
unfolding reach kind_status
reach_kind env required request user w e v h =
    elim (Result-cases (access env user request.project request.name w).0) [
      | inl (a, ea) ↦ (ground (arith, ea), ground (arith, ea))
      | inr (x, ex) ↦ (
        ground (arith, ex),
        ground (arith, ex, access_kind env user request.project request.name w x v),
      )
    ]

abbrev pub is_listed : ℕ → ApiRoute → Bool
is_listed status r = any (λ s. s == status) (error_statuses r)

any_parts :
    (p : ℕ → Bool) (a b c d e : List ℕ)
    → any p (a ++ (b ++ (c ++ (d ++ e))))
      ≡ (any p a || (any p b || (any p c || (any p d || any p e))))
any_parts p a b c d e =
    rw
      (
        any-append p a (b ++ (c ++ (d ++ e))),
        any-append p b (c ++ (d ++ e)),
        any-append p c (d ++ e),
        any-append p d e,
      )
      refl

-- The parts of the list.
listed_parts :
    (status : ℕ) (r : ApiRoute)
    → is_listed status r ≡ (
        any (λ s. s == status) (when (not (is_public r.access)) 401)
        || (any
              (λ s. s == status)
              (when
                (is_project_scoped r.access || needs_session r.access || needs_admin r.access)
                403)
            || (any (λ s. s == status) r.extra_errors
                || (any (λ s. s == status) (when (is_project_scoped r.access) 404)
                    || any (λ s. s == status) (500 ∷ [])))))
unfolding error_statuses
listed_parts status r =
    any_parts (λ (s : ℕ). s == status) (when (not (is_public r.access)) 401)
      (when (is_project_scoped r.access || needs_session r.access || needs_admin r.access) 403)
      r.extra_errors (when (is_project_scoped r.access) 404) (500 ∷ [])

abbrev level_of : ApiRoute → Bool
level_of r = needs_admin r.access || needs_session r.access

listed :
    (r : ApiRoute) (status : ℕ)
    → is_public r.access ≡ false
    → ((status == 401 || status == 500) ≡ true)
      ⊎ ((level_of r ≡ true) × (status ≡ 403))
      ⊎ ((is_project_scoped r.access ≡ true)
          × ((status == 403 || status == 404 || status == 500) ≡ true))
    → is_listed status r ≡ true
listed r status p (inl h) = ground (arith, listed_parts status r)
listed r status p (inr (inl (h, k))) = ground (arith, listed_parts status r)
listed r status p (inr (inr (h, k))) = ground (arith, listed_parts status r)

-- Whatever the database answers, where the slug in the path is a valid one, each status with which
-- `authorize` refuses a request on a route that is not public is among those that the API's
-- documentation lists for it.
pub authorize_documented :
    (env : Env) (r : ApiRoute) (request : Request) (w : World) (e : Err)
    → is_public r.access ≡ false
    → validate_project_slug request.project ≡ ok tt
    → (authorize env r.access request w).0 ≡ err e
    → is_listed (kind_status e.kind) r ≡ true
unfolding authorize kind_status
authorize_documented env r request w e p v h =
    let token = bearer_token request.authorization in
    elim (Result-cases (authenticate env token w).0) [
      | inr (x, ex) ↦
          let same : x ≡ e = ground (arith, ex) in
          listed r (kind_status e.kind) p (inl (authenticate_kind env token w e (rw (← same) ex)))
      | inl ((u, kind), eu) ↦ elim (Bool-cases (falls_short r.access u kind)) [
        | inl short ↦
            listed r (kind_status e.kind) p
              (inr (inl (ground (arith, short), ground (arith, eu, short))))
        | inr enough ↦
            let w1 = (authenticate env token w).1 in
            elim (Result-cases (reach env r.access request u w1).0) [
              | inl (a, ea) ↦ ground (arith, eu, enough, ea)
              | inr (x, ex) ↦
                  let same : x ≡ e = ground (arith, eu, enough, ex) in
                  listed r (kind_status e.kind) p
                    (inr (inr (reach_kind env r.access request u w1 e v (rw (← same) ex))))
            ]
      ]
    ]
