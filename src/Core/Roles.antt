-- ===== src/Core/Roles.antt =====
-- `ProjectRole` of internal/core/core.go, with its order.
use boreas.Prelude.{
  ℕ, ◌≤◌, ◌<◌, String, ◌≡◌, ◌↔◌, Bool, true, false, ◌&&◌, arith, ltb, leb, if◌then◌else◌,
}

-- `absent` is the empty text; `unnamed` is any other that no constant names.
pub data ProjectRole : Type 0 where
  absent viewer operator member owner : ProjectRole
  unnamed : String → ProjectRole

unfoldable pub rank : ProjectRole → ℕ
rank viewer = 1
rank operator = 2
rank member = 3
rank owner = 4
rank _ = 0

unfoldable pub max : ProjectRole → ProjectRole → ProjectRole
unfolding rank
max r other = if ltb (rank r) (rank other) then other else r

-- The text of a role.
unfoldable pub role_text : ProjectRole → String
role_text absent = ""
role_text viewer = "viewer"
role_text operator = "operator"
role_text member = "member"
role_text owner = "owner"
role_text (unnamed s) = s

abbrev pub is_absent : ProjectRole → Bool
is_absent absent = true
is_absent _ = false

abbrev pub is_owner : ProjectRole → Bool
is_owner owner = true
is_owner _ = false

-- What a task grant may hold: the roles below owner.
abbrev pub is_grantable : ProjectRole → Bool
is_grantable r = leb 1 (rank r) && leb (rank r) 3

-- A role that the code compares ranks as the higher of the two, in either order.
pub rank-max : (r s : ProjectRole) → (rank r ≤ rank (max r s)) × (rank s ≤ rank (max r s))
unfolding max
rank-max r s = ground arith

pub rank-max-le : (r s : ProjectRole) (n : ℕ) → rank r ≤ n → rank s ≤ n → rank (max r s) ≤ n
unfolding max
rank-max-le r s n h k = ground arith

pub is_absent-max : (r s : ProjectRole) → (is_absent (max absent s) ≡ false) ↔ (0 < rank s)
unfolding max
is_absent-max r s = ground arith
