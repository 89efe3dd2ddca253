-- ===== src/Core/Errors.antt =====
-- The sentinel errors of internal/core/core.go. A Go error is the sentinel that `errors.Is` finds in
-- it, `other` if it finds none, with the text of `Error()`.
use boreas.Prelude.{◌≡◌, refl, ◌⊎◌, inl, inr, String, Bool, true, false}
use boreas.Prelude.Text.{◌<>◌}

pub data ErrKind : Type 0 where
  invalid_input not_found already_exists conflict unauthorized forbidden too_many other : ErrKind

pub ErrKind-discrete : Discrete ErrKind
ErrKind-discrete = hlevel

pub record Err : Type 0 where
  pub kind : ErrKind
  pub text : String

pub data Result {ℓ κ} (E : Type ℓ) (A : Type κ) : Type (ℓ ⊔ κ) where
  ok : A → Result E A
  err : E → Result E A

abbrev pub err_not_found : Err
err_not_found = record { kind = not_found; text = "not found" }

abbrev pub err_unauthorized : Err
err_unauthorized = record { kind = unauthorized; text = "unauthorized" }

abbrev pub err_forbidden : Err
err_forbidden = record { kind = forbidden; text = "forbidden" }

abbrev pub err_conflict : Err
err_conflict = record { kind = conflict; text = "conflict" }

-- `errors.Join(ErrInvalidInput, errors.New(reason))`
abbrev pub invalid : String → Err
invalid reason = record { kind = invalid_input; text = "invalid input\n" <> reason }

-- `fmt.Errorf("%s: %w", operation, err)`
abbrev pub wrap : String → Err → Err
wrap operation e = record e { text = operation <> ": " <> e.text }

-- `errors.Is(err, core.ErrNotFound)`
abbrev pub is_not_found : ErrKind → Bool
is_not_found not_found = true
is_not_found _ = false

-- A check returns nil or its error.
abbrev pub Check : Type 0
Check = Result Err (Unit {0})

infixl 5 ◌>>=◌ ◌>>◌
abbrev pub ◌>>=◌ {ℓ κ} :
    {E : Type 0} {A : Type ℓ} {B : Type κ} → Result E A → (A → Result E B) → Result E B
ok a >>= f = f a
err e >>= f = err e

abbrev pub ◌>>◌ {ℓ κ} :
    {E : Type 0} {A : Type ℓ} {B : Type κ} → Result E A → Result E B → Result E B
m >> k = m >>= λ _. k

abbrev pub require : Bool → Err → Check
require true e = ok tt
require false e = err e

pub Result-cases {ℓ κ} :
    {E : Type ℓ} {A : Type κ} (r : Result E A) → ((a : A) × (r ≡ ok a)) ⊎ ((e : E) × (r ≡ err e))
Result-cases (ok a) = inl (a, refl)
Result-cases (err e) = inr (e, refl)
