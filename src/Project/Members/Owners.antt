-- ===== src/Project/Members/Owners.antt =====
-- Owners in the table of members: which changes leave a project one.
use boreas.Prelude.{
  ◌+◌, ◌≤◌, ◌≡◌, refl, inl, inr, Bool, true, false, not, ◌&&◌, List, [], ◌∷◌, ◌++◌, arith, any,
  keep, change, count, ◌==◌, Bool-cases,
}
use boreas.Core.Roles.{ProjectRole, is_owner}
use boreas.Core.Model.{Uuid, ProjectMember}
use boreas.Store.Members.{is_member, set_role, upsert}

-- The primary key (project_id, user_id)
abbrev pub IsKeyed : List ProjectMember → Type 0
IsKeyed rows = (project_id user_id : Uuid) → count (is_member project_id user_id) rows ≤ 1

abbrev pub owns : Uuid → ProjectMember → Bool
owns project_id m = m.project_id == project_id && is_owner m.role

abbrev pub has_owner : Uuid → List ProjectMember → Bool
has_owner project_id rows = any (owns project_id) rows

abbrev pub owned_by_other : Uuid → Uuid → ProjectMember → Bool
owned_by_other project_id user_id m = owns project_id m && not (m.user_id == user_id)

abbrev pub owners : Uuid → List ProjectMember → List ProjectMember
owners project_id rows = keep (λ m. is_owner m.role) (keep (λ m. m.project_id == project_id) rows)

module _ (project_id user_id : Uuid) where
  no_owners :
      (rows : List ProjectMember)
      → any (owned_by_other project_id user_id) rows ≡ false
      → count (is_member project_id user_id) rows ≤ 0
      → owners project_id rows ≡ []
  no_owners [] h c = refl
  no_owners (m ∷ rows) h c = ground (arith, no_owners rows)

  -- An owner that is not the user, or the user alone.
  pub sole_owner :
      (rows : List ProjectMember)
      → count (is_member project_id user_id) rows ≤ 1
      → has_owner project_id rows ≡ true
      → any (owned_by_other project_id user_id) rows ≡ false
      → (m : ProjectMember) × (owners project_id rows ≡ m ∷ []) × (m.user_id ≡ user_id)
  sole_owner [] c h o = cc
  sole_owner (m ∷ rows) c h o = elim (Bool-cases (owns project_id m)) [
    | inl e ↦ (m, ground (arith, no_owners rows), ground arith)
    | inr e ↦
        let (n, p, q) = sole_owner rows (ground arith) (ground arith) (ground arith) in
        (n, ground (arith, p), q)
  ]

  pub change-has_owner :
      (rows : List ProjectMember) (role : ProjectRole)
      → any (owned_by_other project_id user_id) rows ≡ true
      → has_owner project_id (change (is_member project_id user_id) (set_role role) rows) ≡ true
  change-has_owner [] role h = cc
  change-has_owner (m ∷ rows) role h = ground (arith, change-has_owner rows role)

  pub keep-has_owner :
      (rows : List ProjectMember)
      → any (owned_by_other project_id user_id) rows ≡ true
      → has_owner project_id (keep (λ m. not (is_member project_id user_id m)) rows) ≡ true
  keep-has_owner [] h = cc
  keep-has_owner (m ∷ rows) h = ground (arith, keep-has_owner rows)

  -- Another project's owners are not touched.
  pub change-has_owner_ne :
      (other : Uuid) (rows : List ProjectMember) (role : ProjectRole)
      → (other == project_id) ≡ false
      → has_owner other (change (is_member project_id user_id) (set_role role) rows)
        ≡ has_owner other rows
  change-has_owner_ne other [] role h = refl
  change-has_owner_ne other (m ∷ rows) role h = ground (arith, change-has_owner_ne other rows role)

  pub keep-has_owner_ne :
      (other : Uuid) (rows : List ProjectMember)
      → (other == project_id) ≡ false
      → has_owner other (keep (λ m. not (is_member project_id user_id m)) rows)
        ≡ has_owner other rows
  keep-has_owner_ne other [] h = refl
  keep-has_owner_ne other (m ∷ rows) h = ground (arith, keep-has_owner_ne other rows)

-- Raising a member to owner takes no owner away.
pub change-owner :
    (project_id user_id other : Uuid) (rows : List ProjectMember) (role : ProjectRole)
    → is_owner role ≡ true
    → has_owner other rows ≡ true
    → has_owner other (change (is_member project_id user_id) (set_role role) rows) ≡ true
change-owner p u other [] role r h = h
change-owner p u other (m ∷ rows) role r h = ground (arith, change-owner p u other rows role)

pub has_owner-concat :
    (project_id : Uuid) (rows : List ProjectMember) (m : ProjectMember)
    → has_owner project_id rows ≡ true
    → has_owner project_id (rows ++ m ∷ []) ≡ true
has_owner-concat p [] m h = cc
has_owner-concat p (n ∷ rows) m h = ground (arith, has_owner-concat p rows m)

pub count-change :
    (p u p' u' : Uuid) (rows : List ProjectMember) (role : ProjectRole)
    → count (is_member p u) (change (is_member p' u') (set_role role) rows)
      ≡ count (is_member p u) rows
count-change p u p' u' [] role = refl
count-change p u p' u' (m ∷ rows) role = ground (arith, count-change p u p' u' rows role)

pub count-concat :
    (p u : Uuid) (rows : List ProjectMember) (m : ProjectMember)
    → count (is_member p u) (rows ++ m ∷ [])
      ≡ count (is_member p u) rows + count (is_member p u) (m ∷ [])
count-concat p u [] m = omega arith
count-concat p u (n ∷ rows) m = ground (arith, count-concat p u rows m)

pub count-none :
    (p u : Uuid) (rows : List ProjectMember)
    → any (is_member p u) rows ≡ false
    → count (is_member p u) rows ≡ 0
count-none p u [] h = refl
count-none p u (m ∷ rows) h = ground (arith, count-none p u rows)

pub count-keep :
    (p u p' u' : Uuid) (rows : List ProjectMember)
    → count (is_member p u) (keep (λ m. not (is_member p' u' m)) rows) ≤ count (is_member p u) rows
count-keep p u p' u' [] = omega arith
count-keep p u p' u' (m ∷ rows) = ground (arith, count-keep p u p' u' rows)

pub upsert-IsKeyed :
    (m : ProjectMember) (rows : List ProjectMember) → IsKeyed rows → IsKeyed (upsert m rows)
upsert-IsKeyed m rows h p u = ground (
  arith,
  h p u,
  count-change p u m.project_id m.user_id rows m.role,
  count-concat p u rows m,
  count-none p u rows,
)

pub has_owner_of_other :
    (project_id user_id : Uuid) (rows : List ProjectMember)
    → any (owned_by_other project_id user_id) rows ≡ true
    → has_owner project_id rows ≡ true
has_owner_of_other p u [] h = cc
has_owner_of_other p u (m ∷ rows) h = ground (arith, has_owner_of_other p u rows)
