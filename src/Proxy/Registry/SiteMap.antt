-- ===== src/Proxy/Registry/SiteMap.antt =====
-- The map from route keys to sites, with its laws.
use boreas.Prelude.{
  ℕ, ◌≡◌, refl, ◌↔◌, Bool, true, false, ◌&&◌, Option, none, some, List, [], ◌∷◌, arith, ◌==◌,
  if◌then◌else◌,
}

abbrev pub Key : Type 0
Key = List ℕ

unfoldable pub key_eq : Key → Key → Bool
key_eq [] [] = true
key_eq (a ∷ x) (b ∷ y) = a == b && key_eq x y
key_eq _ _ = false

pub key_eq_sound : (x y : Key) → key_eq x y ≡ true → x ≡ y
unfolding key_eq
key_eq_sound [] [] h = refl
key_eq_sound (a ∷ x) (b ∷ y) h = ground (arith, key_eq_sound x y)
key_eq_sound [] (b ∷ y) h = cc
key_eq_sound (a ∷ x) [] h = cc

pub key_eq_self : (x : Key) → key_eq x x ≡ true
unfolding key_eq
key_eq_self [] = refl
key_eq_self (a ∷ x) = ground (arith, key_eq_self x)

pub key_eq_iff : (x y : Key) → (key_eq x y ≡ true) ↔ (x ≡ y)
key_eq_iff x y = (key_eq_sound x y, λ e. rw e (key_eq_self y))

abbrev pub Sites : Type 0 → Type 0
Sites S = List (Key × S)

module _ {S : Type 0} where
  unfoldable pub find_site : Key → Sites S → Option S
  find_site k [] = none
  find_site k ((j, s) ∷ r) = if key_eq j k then some s else find_site k r

  unfoldable pub drop_site : Key → Sites S → Sites S
  drop_site k [] = []
  drop_site k ((j, s) ∷ r) = let rest = drop_site k r in if key_eq j k then rest else (j, s) ∷ rest

  unfoldable pub put_site : Key → S → Sites S → Sites S
  unfolding drop_site
  put_site k s r = (k, s) ∷ drop_site k r

  pub find-drop :
      (k j : Key) (r : Sites S)
      → find_site j (drop_site k r) ≡ (if key_eq k j then none else find_site j r)
  unfolding find_site drop_site
  find-drop k j [] = ground arith
  find-drop k j ((i, s) ∷ r) =
      ground (arith, find-drop k j r, key_eq_iff i k, key_eq_iff i j, key_eq_iff k j)

  pub find-put :
      (k j : Key) (s : S) (r : Sites S)
      → find_site j (put_site k s r) ≡ (if key_eq k j then some s else find_site j r)
  unfolding find_site put_site
  find-put k j s r = ground (arith, find-drop k j r)
