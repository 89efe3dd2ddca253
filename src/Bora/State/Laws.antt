-- ===== src/Bora/State/Laws.antt =====
-- What holds after a bind of two tools, whichever of them fails.
use boreas.Prelude.{◌≡◌, refl}
use boreas.Core.Errors.{Err, Result, ok, err}
use boreas.Bora.State.{Session, Tool, go_on, ◌>>=◌}

-- What a tool replied, and the state after it.
module _ {A B : Type 0} (Q : Result Err B → Session → Type 0) where
  go_on_rule :
      (r : Result Err A) (f : A → Tool B) (s : Session)
      → ((e : Err) → r ≡ err e → Q (err e) s)
      → ((a : A) → r ≡ ok a → Q (f a s).0 (f a s).1)
      → Q (go_on r f s).0 (go_on r f s).1
  go_on_rule (ok a) f s fails goes = goes a refl
  go_on_rule (err e) f s fails goes = fails e refl

  pub tool_rule :
      (m : Tool A) (f : A → Tool B) (s : Session)
      → ((e : Err) → (m s).0 ≡ err e → Q (err e) (m s).1)
      → ((a : A) → (m s).0 ≡ ok a → Q (f a (m s).1).0 (f a (m s).1).1)
      → Q ((m >>= f) s).0 ((m >>= f) s).1
  unfolding ◌>>=◌
  tool_rule m f s fails goes = go_on_rule (m s).0 f (m s).1 fails goes
