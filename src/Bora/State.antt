-- ===== src/Bora/State.antt =====
-- `bora` of internal/service/bora.go: what one answer may see and what it has gathered, and a small
-- monad for its tools. A tool's effect on the answer stays when it refuses. The lines shown while it
-- works, `step`, are left out.
pub mod Laws
use boreas.Prelude.{String, Bool, List}
use boreas.Core.Errors.{Err, Result, ok, err, other}
use boreas.Core.Model.{Uuid, User, ProjectAccess}
use boreas.App.{World, App}
use boreas.Project.Fleet.{FleetTask}
use boreas.Bora.Action.{BoraAction}

pub record CodeSource : Type 0 where
  pub repo : String
  pub path : String
  pub url : String

pub record Bora : Type 0 where
  pub actor : User
  pub members : List ProjectAccess
  -- Projects of the user that Bora does not answer about.
  pub unserved : List String
  -- The map `tasks`, as the rows of every project.
  pub tasks : List FleetTask
  pub read : List Uuid
  pub label : String
  pub subject : String
  pub actions : List BoraAction
  pub sources : List CodeSource
  pub title : String
  pub tainted : Bool

pub record Session : Type 0 where
  pub bora : Bora
  pub world : World

abbrev pub Tool : Type 0 → Type 0
Tool A = Session → Result Err A × Session

module _ {A B : Type 0} where
  abbrev pub go_on : Result Err A → (A → Tool B) → Tool B
  go_on (ok a) f s = f a s
  go_on (err e) f s = (err e, s)

  infixl 5 ◌>>=◌ ◌>>◌
  unfoldable pub ◌>>=◌ : Tool A → (A → Tool B) → Tool B
  ◌>>=◌ m f s = let (r, s') = m s in go_on r f s'

  abbrev pub ◌>>◌ : Tool A → Tool B → Tool B
  m >> k = m >>= λ _. k

-- `errors.New(text)`
abbrev pub said : String → Err
said text = record { kind = other; text = text }

module _ {A : Type 0} where
  abbrev pub pure : A → Tool A
  pure a s = (ok a, s)

  abbrev pub refuse : String → Tool A
  refuse text s = (err (said text), s)

  abbrev pub look : (Bora → A) → Tool A
  look f s = (ok (f s.bora), s)

  -- A test of the answer's state.
  abbrev pub check : (Bora → Result Err A) → Tool A
  check f s = (f s.bora, s)

  abbrev pub lift : Result Err A → Tool A
  lift r s = (r, s)

  -- A service's action, which does not touch the answer.
  abbrev pub run : (Bora → App Err A) → Tool A
  run f s = let (r, w) = f s.bora s.world in (r, record s { world = w })

abbrev pub update : (Bora → Bora) → Tool (Unit {0})
update f s = (ok tt, record s { bora = f s.bora })

-- The error of an action, replaced by the text that the model is told.
abbrev pub instead : {A : Type 0} → String → Result Err A → Result Err A
instead text (ok a) = ok a
instead text (err e) = err (said text)

abbrev pub or_say : {A : Type 0} → String → App Err A → App Err A
or_say text m w = let (r, w') = m w in (instead text r, w')
