-- ===== src/Examples/Data.antt =====
-- A quiet environment, and a world with one project, two members and a task that runs.
use text.Mathlib.Text.{◌==◌ as text_eq}
use boreas.Prelude.{ℕ, ◌+◌, String, true, false, none, some, [], ◌∷◌}
use boreas.Prelude.Text.{◌<>◌}
use boreas.Prelude.Int.{pos}
use boreas.Core.Enums.{running, stopped, in_progress, web, UserRole, user, session}
use boreas.Core.Errors.{ok}
use boreas.Core.Roles.{owner, viewer, operator}
use boreas.Core.Model.{User, AuthToken, Project, Task, ContainerState, no_build, no_revision}
use boreas.Store.Db.{Db}
use boreas.App.{Env, World}

abbrev pub container : ContainerState
container = record { exists = true; status = running; ip = "172.18.0.2"; error = "" }

-- Every call succeeds.
abbrev pub quiet : Env
quiet = record {
  fault = λ _. none;
  fresh = λ n. 100 + n;
  now = λ n. 1000 + n;
  random_text = λ _. "secret";
  pull = λ _. ok tt;
  create = λ _. ok "c1";
  recreate = λ _. ok "c2";
  start = λ _. ok tt;
  stop = λ _. ok tt;
  remove = λ _. ok tt;
  inspect = λ _. ok container;
  folders = λ _. ok [];
  make_folder = λ _. ok tt;
  notifies = true;
  ready = λ _. true;
  polls = λ _. 0;
  hash_password = λ _ s. ok ("hash " <> s);
  password_matches = λ hash s. text_eq hash ("hash " <> s);
  hash_token = λ s. "sha " <> s;
  lower = λ s. s;
  unicode_lower = λ c. c;
  parse_url = λ s. some (record { scheme = "http"; host = s; path = "" });
  join_host_port = λ host port. host <> ":80";
  clean_route_url = λ s. some s;
  format_time = λ _. "3:04PM";
}

abbrev person : ℕ → String → UserRole → User
person id name role = record {
  id = id;
  username = name;
  email = name;
  password_hash = "hash " <> name;
  role = role;
  disabled_at = none;
}

abbrev pub ana : User
ana = person 1 "ana" user

abbrev pub bo : User
bo = person 2 "bo" user

abbrev pub cy : User
cy = person 3 "cy" user

abbrev token_of : ℕ → ℕ → String → AuthToken
token_of id user_id hash = record {
  id = id;
  user_id = user_id;
  name = "";
  kind = session;
  token_hash = hash;
  valid_from = 0;
  expires_at = 5000;
  revoked_at = none;
}

abbrev pub ana_token : AuthToken
ana_token = token_of 11 1 "sha ana"

abbrev pub bo_token : AuthToken
bo_token = token_of 12 2 "sha bo"

abbrev pub shop : Project
shop = record {
  id = 20;
  slug = "shop";
  name = "Shop";
  registry_credential_id = none;
  default_image = "";
  default_port = pos 0;
  default_env = [];
  default_form_factor = web;
  created_by = some 1;
}

abbrev pub cart : Task
cart = record {
  id = 30;
  project_id = 20;
  name = "cart";
  description = "";
  note = "";
  image = "shop/cart";
  status = running;
  dev_status = in_progress;
  form_factor = web;
  password_hash = "";
  port = pos 80;
  container_id = "c0";
  container_ip = "172.18.0.1";
  labels = [];
  env = [];
  volumes = [];
  routes = [];
  build = no_build;
  revision = no_revision;
  pending_recreate = false;
  error = "";
}

-- Ana owns the project, Bo views it and operates the task, Cy has nothing.
abbrev pub db : Db
db = record {
  users = ana ∷ bo ∷ cy ∷ [];
  tokens = ana_token ∷ bo_token ∷ [];
  credentials = [];
  projects = shop ∷ [];
  members =
      record { project_id = 20; user_id = 1; role = owner }
      ∷ record { project_id = 20; user_id = 2; role = viewer }
      ∷ [];
  tasks = cart ∷ [];
  grants = record { task_id = 30; user_id = 2; role = operator } ∷ [];
}

abbrev pub world : World
world = record { db = db; registry = []; pairings = []; log = []; tick = 0 }

abbrev pub with_task : Task → World
with_task t = record world { db = record db { tasks = t ∷ [] } }

abbrev pub idle_cart : Task
idle_cart = record cart { status = stopped; container_ip = "" }
