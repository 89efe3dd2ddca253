-- ===== src/Prelude/Find.antt =====
-- What `find`, `any`, `keep` and `change` say of the elements of a list.
use mathlib.Core.Path.{◌≡◌, refl, sym}
use mathlib.Core.Logic.{inl, inr}
use mathlib.Core.Bool.{Bool, true, false, ◌||◌, ◌&&◌}
use mathlib.Core.Option.{none, some}
use mathlib.Core.List.{List, [], ◌∷◌, ◌++◌, Memᴰ}
use native.Mathlib.Omega.{arith}
use boreas.Prelude.Tests.{Bool-cases, if◌then◌else◌}
use boreas.Prelude.Lists.{all, find, any, keep}

module _ {ℓ} {A : Type ℓ} where
  pub find_sound :
      (p : A → Bool) (xs : List A) (x : A) → find p xs ≡ some x → Memᴰ x xs × (p x ≡ true)
  find_sound p [] x h = cc
  find_sound p (y ∷ ys) x h = elim (Bool-cases (p y)) [
    | inl e ↦ let same : y ≡ x = ground arith in (Memᴰ.head (sym same), rw (← same) e)
    | inr e ↦ let (m, q) = find_sound p ys x (ground arith) in (Memᴰ.tail m, q)
  ]

  pub any_sound :
      (p : A → Bool) (xs : List A) → any p xs ≡ true → (x : A) × Memᴰ x xs × (p x ≡ true)
  any_sound p [] h = cc
  any_sound p (y ∷ ys) h = elim (Bool-cases (p y)) [
    | inl e ↦ (y, Memᴰ.head refl, e)
    | inr e ↦ let (x, m, q) = any_sound p ys (ground arith) in (x, Memᴰ.tail m, q)
  ]

  pub any_complete : (p : A → Bool) {x : A} {xs : List A} → Memᴰ x xs → p x ≡ true → any p xs ≡ true
  any_complete p {x} (Memᴰ.head {x = y} e) h = let q : p y ≡ true = rw (← e) h in rw q
  any_complete p (Memᴰ.tail {x = y} m) h = ground (arith, any_complete p m h)

  pub find-of_any : (p : A → Bool) (xs : List A) → any p xs ≡ true → (x : A) × (find p xs ≡ some x)
  find-of_any p [] h = cc
  find-of_any p (y ∷ ys) h = elim (Bool-cases (p y)) [
    | inl e ↦ (y, rw e)
    | inr e ↦ let (x, q) = find-of_any p ys (ground arith) in (x, rw e q)
  ]

  pub find-none : (p : A → Bool) (xs : List A) → any p xs ≡ false → find p xs ≡ none
  find-none p [] h = refl
  find-none p (y ∷ ys) h = ground (arith, find-none p ys)

  pub any-keep : (p q : A → Bool) (xs : List A) → any p xs ≡ false → any p (keep q xs) ≡ false
  any-keep p q [] h = refl
  any-keep p q (y ∷ ys) h = ground (arith, any-keep p q ys)

  pub all_sound : (p : A → Bool) {x : A} {xs : List A} → Memᴰ x xs → all p xs ≡ true → p x ≡ true
  all_sound p {x} (Memᴰ.head {x = y} e) h = let q : p y ≡ true = ground (arith, h) in rw e q
  all_sound p (Memᴰ.tail {x = y} m) h = all_sound p m (ground (arith, h))

  pub any-append : (p : A → Bool) (xs ys : List A) → any p (xs ++ ys) ≡ (any p xs || any p ys)
  any-append p [] ys = refl
  any-append p (x ∷ xs) ys = ground (arith, any-append p xs ys)

  pub keep_sound :
      (p : A → Bool) {x : A} (xs : List A) → Memᴰ x (keep p xs) → Memᴰ x xs × (p x ≡ true)
  keep_sound p [] m = elim m [ ]
  keep_sound p {x} (y ∷ ys) m = split (p y) refl m (keep_sound p ys)
    where
      split :
          (b : Bool)
          → p y ≡ b
          → Memᴰ x (if b then y ∷ keep p ys else keep p ys)
          → (Memᴰ x (keep p ys) → Memᴰ x ys × (p x ≡ true))
          → Memᴰ x (y ∷ ys) × (p x ≡ true)
      split true e (Memᴰ.head h) later = (Memᴰ.head h, rw h e)
      split true e (Memᴰ.tail n) later = let (k, q) = later n in (Memᴰ.tail k, q)
      split false e n later = let (k, q) = later n in (Memᴰ.tail k, q)

  pub keep_complete :
      (p : A → Bool) {x : A} {xs : List A} → Memᴰ x xs → p x ≡ true → Memᴰ x (keep p xs)
  keep_complete p {x} (Memᴰ.head {x = y} {xs = ys} e) h =
      let q : p y ≡ true = rw (← e) h in rw q (Memᴰ.head e)
  keep_complete p (Memᴰ.tail {x = y} {xs = ys} m) h = elim (Bool-cases (p y)) [
    | inl e ↦ rw e (Memᴰ.tail (keep_complete p m h))
    | inr e ↦ rw e (keep_complete p m h)
  ]

  pub all-append : (p : A → Bool) (xs ys : List A) → all p (xs ++ ys) ≡ (all p xs && all p ys)
  all-append p [] ys = refl
  all-append p (x ∷ xs) ys = ground (arith, all-append p xs ys)

  pub all-and : (p q : A → Bool) (xs : List A) → all (λ x. p x && q x) xs ≡ (all p xs && all q xs)
  all-and p q [] = refl
  all-and p q (x ∷ xs) = ground (arith, all-and p q xs)
