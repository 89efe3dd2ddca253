-- ===== src/Bora/Tools/Laws.antt =====
-- What no tool but propose_action changes of an answer.
use boreas.Prelude.{
  ◌≡◌, refl, ◌∙◌, String, Bool, true, false, Option, none, some, List, if◌then◌else◌,
}
use boreas.Core.Errors.{Err, Result, ok, err}
use boreas.Core.Model.{Uuid}
use boreas.Bora.State.{Bora, Session, Tool, go_on, pure, ◌>>=◌}
use boreas.Bora.Lookup

-- The answer goes on with its user, projects, tasks and buttons, and stays tainted.
pub record IsFrame (b c : Bora) : Type 0 where
  pub actor : c.actor ≡ b.actor
  pub members : c.members ≡ b.members
  pub tasks : c.tasks ≡ b.tasks
  pub actions : c.actions ≡ b.actions
  pub tainted : b.tainted ≡ true → c.tainted ≡ true

pub IsFrame-refl : (b : Bora) → IsFrame b b
IsFrame-refl b = record {
  actor = refl;
  members = refl;
  tasks = refl;
  actions = refl;
  tainted = λ e. e;
}

pub IsFrame-trans : (b c d : Bora) → IsFrame b c → IsFrame c d → IsFrame b d
IsFrame-trans b c d h k = record {
  actor = k.actor ∙ h.actor;
  members = k.members ∙ h.members;
  tasks = k.tasks ∙ h.tasks;
  actions = k.actions ∙ h.actions;
  tainted = λ e. k.tainted (h.tainted e);
}

-- Whatever a tool replies, the answer before it and the one after it are related.
module _ (R : Bora → Bora → Type 0) (trans : (b c d : Bora) → R b c → R c d → R b d)
    {A B : Type 0} where
  go_on_keeps :
      (r : Result Err A) (f : A → Tool B) (b : Bora) (s : Session)
      → R b s.bora
      → ((a : A) (s : Session) → R s.bora (f a s).1.bora)
      → R b (go_on r f s).1.bora
  go_on_keeps (ok a) f b s h k = trans b s.bora _ h (k a s)
  go_on_keeps (err e) f b s h k = h

  pub bind_keeps :
      (m : Tool A) (f : A → Tool B)
      → ((s : Session) → R s.bora (m s).1.bora)
      → ((a : A) (s : Session) → R s.bora (f a s).1.bora)
      → (s : Session) → R s.bora ((m >>= f) s).1.bora
  unfolding ◌>>=◌
  bind_keeps m f h k s = go_on_keeps (m s).0 f s.bora (m s).1 (h s) k

abbrev pub IsQuiet : {A : Type 0} → Tool A → Type 0
IsQuiet m = (s : Session) → IsFrame s.bora (m s).1.bora

pub IsQuiet-bind :
    {A B : Type 0} (m : Tool A) (f : A → Tool B)
    → IsQuiet m
    → ((a : A) → IsQuiet (f a))
    → IsQuiet (m >>= f)
IsQuiet-bind m f h k = bind_keeps IsFrame IsFrame-trans m f h k

module _ {A : Type 0} where
  pub IsQuiet-if : (c : Bool) (m n : Tool A) → IsQuiet m → IsQuiet n → IsQuiet (if c then m else n)
  IsQuiet-if true m n h k = h
  IsQuiet-if false m n h k = k

  pub given-IsQuiet : (o : Option A) (f : Bora → String) → IsQuiet (Lookup.given o f)
  unfolding ◌>>=◌
  given-IsQuiet none f = λ s. IsFrame-refl s.bora
  given-IsQuiet (some a) f = λ s. IsFrame-refl s.bora

  pub pure-IsQuiet : (a : A) → IsQuiet (pure a)
  pure-IsQuiet a s = IsFrame-refl s.bora

pub read-IsFrame : (ids : List Uuid) (b : Bora) → IsFrame b (Lookup.mark_read ids b)
read-IsFrame ids b = record {
  actor = refl;
  members = refl;
  tasks = refl;
  actions = refl;
  tainted = λ e. e;
}
