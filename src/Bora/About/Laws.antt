-- ===== src/Bora/About/Laws.antt =====
-- What an answer covers.
use mathlib.Core.List.{Memᴰ}
use boreas.Prelude.{
  ℕ, ◌≡◌, ◌⊎◌, ◌&&◌, map, refl, Bool, true, false, Option, none, some, List, [], ◌∷◌, arith, inl,
  inr,
}
use boreas.Core.Model.{ProjectAccess}
use boreas.Bora.Aid.{CodeIndex}
use boreas.Bora.About.{bora_serves, served_of, and_has}

served_cons :
    (b : Bool) (ss : List Bool) (c a : ProjectAccess) (accs : List ProjectAccess)
    → Memᴰ a (served_of (b ∷ ss) (c ∷ accs))
    → ((b ≡ true) × (a ≡ c)) ⊎ Memᴰ a (served_of ss accs)
served_cons true ss c a accs (Memᴰ.head e) = inl (refl, e)
served_cons true ss c a accs (Memᴰ.tail m) = inr m
served_cons false ss c a accs m = inr m

abbrev pub IsServed : ProjectAccess → List ProjectAccess → Type 0
IsServed a accs = Memᴰ a accs × (a.all_tasks ≡ true)

seen_more :
    {a c : ProjectAccess} {accs : List ProjectAccess} → IsServed a accs → IsServed a (c ∷ accs)
seen_more (m, t) = (Memᴰ.tail m, t)

members-IsServed :
    (accs : List ProjectAccess) (a : ProjectAccess)
    → Memᴰ a (served_of (map (λ acc. acc.all_tasks) accs) accs)
    → IsServed a accs
members-IsServed [] a m = elim m [ ]
members-IsServed (c ∷ accs) a m = elim (served_cons c.all_tasks _ c a accs m) [
  | inl (t, e) ↦ (Memᴰ.head e, rw e t)
  | inr k ↦ seen_more (members-IsServed accs a k)
]

context-IsServed :
    (accs : List ProjectAccess) (hs : List Bool) (a : ProjectAccess)
    → Memᴰ a (served_of (and_has (map (λ acc. acc.all_tasks) accs) hs) accs)
    → IsServed a accs
context-IsServed [] hs a m = elim m [ ]
context-IsServed (c ∷ accs) [] a m = members-IsServed (c ∷ accs) a m
context-IsServed (c ∷ accs) (h ∷ hs) a m = elim (served_cons (c.all_tasks && h) _ c a accs m) [
  | inl (t, e) ↦ (Memᴰ.head e, rw e (ground (arith, t)))
  | inr k ↦ seen_more (context-IsServed accs hs a k)
]

-- Served projects are among those that the user reaches, and the user is a member of each.
pub served_of-bora_serves :
    (code : Option CodeIndex) (n : ℕ) (accs : List ProjectAccess) (a : ProjectAccess)
    → Memᴰ a (served_of (bora_serves code n accs) accs)
    → IsServed a accs
unfolding bora_serves
served_of-bora_serves none n accs a m = members-IsServed accs a m
served_of-bora_serves (some index) n accs a m = context-IsServed accs _ a m
