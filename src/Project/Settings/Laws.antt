-- ===== src/Project/Settings/Laws.antt =====
-- Projects that are created and changed.
use boreas.Prelude.{
  ◌≡◌, ◌∙◌, refl, zero, suc, inl, inr, Bool, true, ◌&&◌, List, [], ◌∷◌, any, change, arith,
}
use boreas.Prelude.Find.{any-append}
use boreas.Prelude.Int.{ℤ, pos, negsuc, or_int, between}
use boreas.Core.Errors.{ok, Result-cases}
use boreas.Core.Names.{validate_project_slug, validate_env}
use boreas.Core.Enums.{validate_form_factor}
use boreas.Core.Roles.{ProjectRole, owner, is_owner}
use boreas.Core.Model.{Uuid, User, Project, ProjectMember}
use boreas.Store
use boreas.Store.Members.{is_member, set_role, upsert}
use boreas.App.{Env, World, create_folder, exec, lift, call, wrapping}
use boreas.App.Laws.{bind_ends, bind-ok, bind_of_ok}
use boreas.Project.Settings.{
  CreateProjectInput, new_project, store_project, create, check_port, add_owner, create_row,
  check_credential,
}

abbrev pub owns_as : Uuid → Uuid → ProjectMember → Bool
owns_as project_id user_id m = is_member project_id user_id m && is_owner m.role

change-owns_as :
    (p u : Uuid) (role : ProjectRole) (rows : List ProjectMember)
    → is_owner role ≡ true
    → any (is_member p u) rows ≡ true
    → any (owns_as p u) (change (is_member p u) (set_role role) rows) ≡ true
change-owns_as p u role [] o h = cc
change-owns_as p u role (m ∷ rows) o h = ground (arith, change-owns_as p u role rows o)

upsert-owns_as :
    (m : ProjectMember) (rows : List ProjectMember)
    → is_owner m.role ≡ true
    → any (owns_as m.project_id m.user_id) (upsert m rows) ≡ true
upsert-owns_as m rows o = ground (
  arith,
  o,
  change-owns_as m.project_id m.user_id m.role rows o,
  any-append (owns_as m.project_id m.user_id) rows (m ∷ []),
)

-- The user owns the project.
abbrev pub IsOwned : Uuid → Uuid → World → Type 0
IsOwned project_id user_id w = any (owns_as project_id user_id) w.db.members ≡ true

-- The caller owns the project, which has the slug and the port of the one that was to be stored.
abbrev IsKept : User → Project → Project → World → Type 0
IsKept actor project p w =
    IsOwned p.id actor.id w × (p.slug ≡ project.slug) × (p.default_port ≡ project.default_port)

-- A port that is not sent, which is 0, is 80.
abbrev pub sent_port : ℤ → ℤ
sent_port (pos zero) = pos 80
sent_port port = port

sent_port-or_int : (port : ℤ) → or_int port (pos 80) ≡ sent_port port
sent_port-or_int (pos zero) = refl
sent_port-or_int (pos (suc n)) = refl
sent_port-or_int (negsuc n) = refl

-- What `Create` leaves behind: the caller owns the project, which has the slug asked for, and the port
-- asked for or 80.
abbrev pub IsCreated : User → CreateProjectInput → Project → World → Type 0
IsCreated actor input p w =
    IsOwned p.id actor.id w
    × (p.slug ≡ input.slug)
    × (p.default_port ≡ sent_port input.default_port)

module _ (env : Env) (actor : User) where
  add_owner-IsOwned :
      (stored p : Project) (w : World)
      → (add_owner env actor stored w).0 ≡ ok p
      → IsOwned p.id actor.id (add_owner env actor stored w).1 × (stored ≡ p)
  unfolding add_owner exec Store.Members.add_member
  add_owner-IsOwned stored p w h =
      let m : ProjectMember = record { project_id = stored.id; user_id = actor.id; role = owner } in
      ground (arith, h, upsert-owns_as m w.db.members refl)

  create_row-fields :
      (project stored : Project) (w : World)
      → (create_row env project w).0 ≡ ok stored
      → (stored.slug ≡ project.slug) × (stored.default_port ≡ project.default_port)
  unfolding exec Store.Projects.create
  create_row-fields project stored w h = ground (arith, h)

  store_project-IsKept :
      (project p : Project) (w : World)
      → (store_project env actor project w).0 ≡ ok p
      → IsKept actor project p (store_project env actor project w).1
  unfolding store_project
  store_project-IsKept project p w h =
      let (stored, first, rest) = bind-ok (create_row env project) (add_owner env actor) w h in
      let (has, same) = add_owner-IsOwned stored p (create_row env project w).1 rest in
      let (slug, port) = create_row-fields project stored w first in
      let goes_on = bind_of_ok (create_row env project) (add_owner env actor) w stored first in
      rw goes_on (has, rw (← same) slug, rw (← same) port)

  create_checks :
      (input : CreateProjectInput) (p : Project) (w : World)
      → (create env actor input w).0 ≡ ok p
      → (validate_project_slug input.slug ≡ ok tt)
        × (check_port (new_project actor input).default_port ≡ ok tt)
  unfolding create
  create_checks input p w h = elim (Result-cases (validate_project_slug input.slug)) [
    | inr (e, bad) ↦ ground (arith, h, bad)
    | inl (u, good) ↦ elim (Result-cases (check_port (new_project actor input).default_port)) [
      | inr (e, bad) ↦ ground (arith, h, good, bad)
      | inl (v, port) ↦ (good, port)
    ]
  ]

  create_ends :
      (input : CreateProjectInput) (p : Project) (w : World)
      → (create env actor input w).0 ≡ ok p
      → IsKept actor (new_project actor input) p (create env actor input w).1
  unfolding create
  create_ends input p w h =
      let project = new_project actor input in
      let P = IsKept actor project p in
      bind_ends P (lift (validate_project_slug input.slug)) _ w
        (λ _ w1. bind_ends P (lift (check_port project.default_port)) _ w1 λ _ w2.
          bind_ends P (lift (validate_env input.default_env)) _ w2 λ _ w3.
            bind_ends P (lift (validate_form_factor project.default_form_factor)) _ w3 λ _ w4.
              bind_ends P (check_credential env input.registry_credential_id) _ w4 λ _ w5.
                bind_ends P
                  (wrapping "create project folder"
                    (call (create_folder input.slug) env.make_folder))
                  (λ _. store_project env actor project) w5
                  λ _ w6. store_project-IsKept project p w6)
        h

  -- A project that `Create` returns is owned by the caller, under the slug and the port that were
  -- asked for, or port 80; the slug is valid, and the port between 1 and 65535.
  pub create-IsCreated :
      (input : CreateProjectInput) (p : Project) (w : World)
      → (create env actor input w).0 ≡ ok p
      → IsCreated actor input p (create env actor input w).1
        × (validate_project_slug input.slug ≡ ok tt)
        × (between 1 65535 p.default_port ≡ true)
  unfolding new_project
  create-IsCreated input p w h =
      let (slug, port) = create_checks input p w h in
      let (has, same_slug, same_port) = create_ends input p w h in
      (
        (has, same_slug, same_port ∙ sent_port-or_int input.default_port),
        slug,
        ground (arith, port, same_port),
      )
