-- ===== src/App.antt =====
-- What the services run in: the tables, the proxy's registry and the login codes that wait to be
-- claimed are one state; Docker, the database's failures, the clock and randomness answer from an
-- environment, which may give any answer to any call. `tick` counts the calls, so that a theorem for
-- every environment is one for every sequence of answers. A request runs by itself: the locks that
-- order requests on one task, and requests that interleave, are left out.
pub mod Laws
use boreas.Prelude.{ℕ, ◌≡◌, suc, ◌+◌, String, Bool, Option, none, some, List, [], ◌∷◌, ◌++◌}
use boreas.Prelude.Int.{ℤ}
use boreas.Core.Errors.{Err, Result, ok, err, Check, wrap, other}
use boreas.Core.Model.{
  Uuid, Time, RegistryCredential, Notification, ContainerSpec, ContainerState, Task,
}
use boreas.Store.Db.{Db}
use boreas.Proxy.Registry.{Registry, Url}

pub record Env : Type 0 where
  -- What the database driver says if the store call made at this tick fails for a reason of its
  -- own: the error wraps none of the sentinels.
  pub fault : ℕ → Option String
  pub fresh : ℕ → Uuid
  pub now : ℕ → Time
  pub random_text : ℕ → String
  -- Docker
  pub pull : ℕ → Check
  pub create : ℕ → Result Err String
  pub recreate : ℕ → Result Err String
  pub start : ℕ → Check
  pub stop : ℕ → Check
  pub remove : ℕ → Check
  pub inspect : ℕ → Result Err ContainerState
  pub folders : ℕ → Result Err (List String)
  pub make_folder : ℕ → Check
  -- Whether `ProjectService.Notify` is wired.
  pub notifies : Bool
  -- Whether the readiness probe of the task's address passes.
  pub ready : ℕ → Bool
  -- How often the poll ticker fires before the readiness deadline.
  pub polls : ℕ → ℕ
  -- bcrypt.GenerateFromPassword and bcrypt.CompareHashAndPassword
  pub hash_password : ℕ → String → Result Err String
  pub password_matches : String → String → Bool
  -- The hex digits of SHA-256.
  pub hash_token : String → String
  -- lower(text) of the database, and unicode.ToLower beyond ASCII
  pub lower : String → String
  pub unicode_lower : ℕ → ℕ
  pub parse_url : String → Option Url
  pub join_host_port : String → ℤ → String
  -- `CleanRouteURL`, `none` where it refuses.
  pub clean_route_url : String → Option String
  -- `completedAt.Format("3:04PM")`
  pub format_time : Time → String

-- What the services ask of Docker and tell users.
pub data Call : Type 0 where
  pull_image : String → Option RegistryCredential → Call
  create_container : ContainerSpec → Call
  recreate_container : String → ContainerSpec → Call
  start_container stop_container remove_container inspect_container : String → Call
  list_folders create_folder : String → Call
  tell : Notification → Call

pub record Pairing : Type 0 where
  pub user_id : Uuid
  pub expires : Time
  pub claimed : Bool

pub record World : Type 0 where
  pub db : Db
  pub registry : Registry
  pub pairings : List (String × Pairing)
  -- Newest first.
  pub log : List Call
  pub tick : ℕ

abbrev pub App : Type 0 → Type 0 → Type 0
App E A = World → Result E A × World

module _ {E A B : Type 0} where
  abbrev pub continue : Result E A → (A → App E B) → App E B
  continue (ok a) f w = f a w
  continue (err e) f w = (err e, w)

  infixl 5 ◌>>=◌ ◌>>◌
  abbrev pub ◌>>=◌ : App E A → (A → App E B) → App E B
  ◌>>=◌ m f w = let (r, w') = m w in continue r f w'

  abbrev pub ◌>>◌ : App E A → App E B → App E B
  m >> k = m >>= λ _. k

module _ {E A : Type 0} where
  abbrev pub pure : A → App E A
  pure a w = (ok a, w)

  abbrev pub fail : E → App E A
  fail e w = (err e, w)

  abbrev pub lift : Result E A → App E A
  lift r w = (r, w)

  -- The error as a value, for code that goes on after it.
  abbrev pub attempt : App E A → App E (Result E A)
  attempt m w = let (r, w') = m w in (ok r, w')

  abbrev pub read : (World → A) → App E A
  read f w = (ok (f w), w)

-- A change of the registry.
abbrev pub on_registry : {E : Type 0} → (Registry → Registry) → App E (Unit {0})
on_registry f w = (ok tt, record w { registry = f w.registry })

abbrev pub tick_of : World → World
tick_of w = record w { tick = suc w.tick }

-- A value of the environment at this call: the clock, a random text.
abbrev pub ask : {E A : Type 0} → (ℕ → A) → App E A
ask f w = (ok (f w.tick), tick_of w)

-- An answer of the environment that may be an error.
abbrev pub ask_result : {A : Type 0} → (ℕ → Result Err A) → App Err A
ask_result f w = (f w.tick, tick_of w)

-- A call of Docker is logged, and answers what the environment says.
abbrev pub call : {A : Type 0} → Call → (ℕ → Result Err A) → App Err A
call c reply w = (reply w.tick, record w { log = c ∷ w.log; tick = suc w.tick })

-- An action for each element, in order; the first error ends the loop.
unfoldable pub for_each : {A : Type 0} → (A → App Err (Unit {0})) → List A → App Err (Unit {0})
for_each f [] = pure tt
for_each f (a ∷ as') = f a >> for_each f as'

abbrev pub notify : {E : Type 0} → Notification → App E (Unit {0})
notify n w = (ok tt, record w { log = tell n ∷ w.log })

-- `wrap` on the error of an action
abbrev pub wrapping : {A : Type 0} → String → App Err A → App Err A
wrapping operation m w =
    let (r, w') = m w in (elim r [ ok a ↦ ok a | err e ↦ err (wrap operation e) ], w')

abbrev driver_error : String → Err
driver_error s = record { kind = other; text = s }

module _ (env : Env) {A : Type 0} where
  abbrev run_query : Option String → Result Err A → Result Err A
  run_query none r = r
  run_query (some s) r = err (driver_error s)

  -- A query that reads; a fault of the database is its error.
  unfoldable pub query : (Db → Result Err A) → App Err A
  query f w = (run_query (env.fault w.tick) (f w.db), tick_of w)

  abbrev commit : World → Result Err (A × Db) → Result Err A × World
  commit w (ok (a, db)) = (ok a, record w { db = db; tick = suc w.tick })
  commit w (err e) = (err e, tick_of w)

  abbrev run_exec : World → Option String → Result Err (A × Db) → Result Err A × World
  run_exec w none r = commit w r
  run_exec w (some s) r = (err (driver_error s), tick_of w)

  -- A statement that writes.
  unfoldable pub exec : (Db → Result Err (A × Db)) → App Err A
  exec f w = run_exec w (env.fault w.tick) (f w.db)

-- The database answers every call.
abbrev pub IsFaultless : Env → Type 0
IsFaultless env = (n : ℕ) → env.fault n ≡ none
