-- ===== src/Examples/Streams.antt =====
-- Projects that are created, fleets, notifications and streams at concrete inputs.
use mathlib.Core.List.{Memᴰ}
use boreas.Prelude.{ℕ, String, all, ◌≡◌, ◌↔◌, refl, sym, ap, ◌∙◌, true, none, some, List, [], ◌∷◌}
use boreas.Prelude.Int.{pos, between}
use boreas.Core.Enums.{web, deployed, success}
use boreas.Core.Errors.{ok}
use boreas.Core.Names.{validate_project_slug}
use boreas.Core.Roles.{viewer, operator, is_grantable}
use boreas.Core.Model.{User, ProjectAccess, is_admin}
use boreas.Store
use boreas.Store.Inbox.{Note, Inbox, Subscription, told, enabled_user, get}
use boreas.Store.Inbox.Laws.{IsStored, told-get}
use boreas.Project.Access.{access}
use boreas.Project.Settings.{CreateProjectInput, create, new_project}
use boreas.Project.Settings.Laws.{IsCreated, create-IsCreated}
use boreas.Project.Fleet.{FleetTask, fleet}
use boreas.Project.Fleet.Rows.{AreNamed}
use boreas.Project.Fleet.Laws.{fleet-access}
use boreas.Task.Ready.{wait_ready}
use boreas.Task.Ready.Laws.{Ends, wait_ready-Ends}
use boreas.Task.Metrics.{Hub, Event, watch, sample, leave, fire, run, empty_hub}
use boreas.Task.Metrics.Laws.{IsSound}
use boreas.Task.Metrics.Reach.{hub_never_panics}
use boreas.Http.Events.{
  Hub as StreamHub, Event as StreamEvent, subscribes, leaves, takes, new_hub, publish,
  run as run_events,
}
use boreas.Http.Events.Laws.{is_woken, publish_wakes}
use boreas.Examples.Data.{quiet, world, ana, bo, shop, cart, db}

abbrev blog : CreateProjectInput
blog = record {
  slug = "blog";
  name = "";
  registry_credential_id = none;
  default_image = "";
  default_port = pos 0;
  default_env = [];
  default_form_factor = web;
}

create-IsCreated_example :
    IsCreated ana blog (record (new_project ana blog) { id = 101 }) (create quiet ana blog world).1
    × (validate_project_slug "blog" ≡ ok tt)
    × (between 1 65535 (pos 80) ≡ true)
unfolding create validate_project_slug boreas.Store.Projects.create boreas.Store.Members.add_member
create-IsCreated_example =
    create-IsCreated quiet ana blog (record (new_project ana blog) { id = 101 }) world refl

abbrev bo_accesses : List ProjectAccess
bo_accesses = record { project = shop; user_id = 2; role = viewer; all_tasks = true } ∷ []

abbrev bo_cart : FleetTask
bo_cart = record { task = cart; role = operator }

db-AreNamed : AreNamed db.tasks
db-AreNamed t u (Memᴰ.tail m) n p q = elim m [ ]
db-AreNamed t u (Memᴰ.head e) (Memᴰ.tail n) p q = elim n [ ]
db-AreNamed t u (Memᴰ.head e) (Memᴰ.head f) p q = ap (λ x. x.id) (f ∙ sym e)

fleet-access_example :
    Memᴰ cart db.tasks
    × ((slug : String) (acc : ProjectAccess)
        → (access quiet bo slug "cart" world).0 ≡ ok acc
        → acc.project.id ≡ 20
        → acc.role ≡ operator)
unfolding boreas.Core.Roles.rank fleet boreas.Store.Projects.list_for_user
    boreas.Store.Grants.for_user boreas.Store.Tasks.list_all boreas.Core.Roles.max
fleet-access_example =
    fleet-access quiet bo world bo_accesses (bo_cart ∷ []) db-AreNamed refl refl refl refl bo_cart
      (Memᴰ.head refl)

wait_ready-Ends_example : Ends quiet "c0" 3 world (wait_ready quiet 3 "c0" world)
wait_ready-Ends_example = wait_ready-Ends quiet "c0" 3 world

abbrev news : Note
news = record {
  id = 50;
  created_at = 900;
  note = record {
    project_id = 20;
    task_name = "cart";
    type = deployed;
    status = success;
    title = "";
    body = "";
    user_id = none;
  };
}

abbrev phone : Subscription
phone = record { token = "phone"; user_id = 2 }

abbrev inbox : Inbox
inbox = record { notes = news ∷ []; seen = []; subscriptions = phone ∷ [] }

news-IsStored : IsStored db inbox news
news-IsStored = (Memᴰ.head refl, only, refl)
  where
    only : (m : Note) → Memᴰ m (news ∷ []) → m.id ≡ 50 → m ≡ news
    only m (Memᴰ.head e) h = e
    only m (Memᴰ.tail n) h = elim n [ ]

told-get_example :
    Memᴰ phone (told db news.note inbox)
    ↔ ((u : User) × (enabled_user db 2 ≡ some u) × (get db u.id (is_admin u) 50 inbox ≡ ok news))
told-get_example = told-get db inbox news phone news-IsStored (Memᴰ.head refl)

-- A viewer comes, gets a sample and leaves; the timer fires.
abbrev events : List (Event ℕ)
events = watch "c0" true ∷ sample 0 7 ∷ leave 0 1 ∷ fire 0 2 ∷ []

hub_never_panics_example : (h : Hub ℕ) × (run events empty_hub ≡ some h) × IsSound h
hub_never_panics_example = hub_never_panics events

abbrev wakes : List StreamEvent
wakes = subscribes ∷ takes 0 ∷ subscribes ∷ leaves 1 ∷ []

publish_wakes_example :
    (h : StreamHub) × (h' : StreamHub) × (run_events wakes new_hub ≡ some h)
    × (publish h ≡ some h')
    × (all is_woken h'.streams ≡ true)
publish_wakes_example = publish_wakes wakes
