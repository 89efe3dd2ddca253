-- ===== src/App/Laws.antt =====
-- Rules for what holds after an action, whatever the environment answers.
use boreas.Prelude.{◌≡◌, refl, List, [], ◌∷◌, arith}
use boreas.Core.Errors.{Err, Result, ok, err}
use boreas.App.{World, App, continue, ◌>>=◌, for_each}

module _ {E A B : Type 0} (P : World → Type 0) where
  continue_rule :
      (r : Result E A) (f : A → App E B) (w : World)
      → P w
      → ((a : A) → r ≡ ok a → P (f a w).1)
      → P (continue r f w).1
  continue_rule (ok a) f w h k = k a refl
  continue_rule (err e) f w h k = h

  -- `P` holds after a bind if it holds after its first part, and the rest keeps it for each value
  -- that the first part can give.
  pub bind_rule :
      (m : App E A) (f : A → App E B) (w : World)
      → P (m w).1
      → ((a : A) → (m w).0 ≡ ok a → P (f a (m w).1).1)
      → P ((m >>= f) w).1
  bind_rule m f w h k = continue_rule (m w).0 f (m w).1 h k

module _ {E A B : Type 0} where
  continue-ok :
      (r : Result E A) (f : A → App E B) (w : World) {b : B}
      → (continue r f w).0 ≡ ok b
      → (a : A) × (r ≡ ok a) × ((f a w).0 ≡ ok b)
  continue-ok (ok a) f w h = (a, refl, h)
  continue-ok (err e) f w h = cc

  -- Inversion of a bind that succeeds.
  pub bind-ok :
      (m : App E A) (f : A → App E B) (w : World) {b : B}
      → ((m >>= f) w).0 ≡ ok b
      → (a : A) × ((m w).0 ≡ ok a) × ((f a (m w).1).0 ≡ ok b)
  bind-ok m f w h = continue-ok (m w).0 f (m w).1 h

  continue_of_ok :
      (r : Result E A) (f : A → App E B) (w : World) (a : A) → r ≡ ok a → continue r f w ≡ f a w
  continue_of_ok (ok b) f w a h = ground arith
  continue_of_ok (err e) f w a h = cc

  -- A bind whose first part succeeds is the rest.
  pub bind_of_ok :
      (m : App E A) (f : A → App E B) (w : World) (a : A)
      → (m w).0 ≡ ok a
      → (m >>= f) w ≡ f a (m w).1
  bind_of_ok m f w a h = continue_of_ok (m w).0 f (m w).1 a h

module _ {E A B : Type 0} (P : World → Type 0) {b : B} where
  continue_ends :
      (r : Result E A) (f : A → App E B) (w : World)
      → ((a : A) → (f a w).0 ≡ ok b → P (f a w).1)
      → (continue r f w).0 ≡ ok b
      → P (continue r f w).1
  continue_ends (ok a) f w k h = k a h
  continue_ends (err e) f w k h = cc

  -- What the rest of a bind gives wherever it succeeds, the bind gives where it succeeds.
  pub bind_ends :
      (m : App E A) (f : A → App E B) (w : World)
      → ((a : A) (w' : World) → (f a w').0 ≡ ok b → P (f a w').1)
      → ((m >>= f) w).0 ≡ ok b
      → P ((m >>= f) w).1
  bind_ends m f w k h = continue_ends (m w).0 f (m w).1 (λ a. k a (m w).1) h

-- The first step of a loop that ends well, and the rest of it.
pub for_each-ok :
    {A : Type 0} (f : A → App Err (Unit {0})) (a : A) (rest : List A) (w : World)
    → (for_each f (a ∷ rest) w).0 ≡ ok tt
    → ((f a w).0 ≡ ok tt)
      × ((for_each f rest (f a w).1).0 ≡ ok tt)
      × (for_each f (a ∷ rest) w ≡ for_each f rest (f a w).1)
unfolding for_each
for_each-ok f a rest w h =
    let (u, first, others) = bind-ok (f a) (λ _. for_each f rest) w h in
    (first, others, bind_of_ok (f a) (λ _. for_each f rest) w tt first)

-- What every step keeps, the loop keeps, whether or not it ends well.
pub for_each_rule :
    {A : Type 0} (P : World → Type 0) (f : A → App Err (Unit {0}))
    → ((a : A) (w : World) → P w → P (f a w).1)
    → (xs : List A) (w : World) → P w
    → P (for_each f xs w).1
unfolding for_each
for_each_rule P f keeps [] w h = h
for_each_rule P f keeps (a ∷ xs) w h =
    bind_rule P (f a) (λ _. for_each f xs) w (keeps a w h)
      λ _ _. for_each_rule P f keeps xs (f a w).1 (keeps a w h)
