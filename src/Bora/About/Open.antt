-- ===== src/Bora/About/Open.antt =====
-- `newBora`, `about` and `alert` of internal/service/bora.go: an answer before its first round. The
-- notifications are tables of their own, beside those of the world.
use boreas.Prelude.{Bool, true, false, Option, none, some, List, [], ◌∷◌, find, any, if◌then◌else◌}
use boreas.Prelude.Text.{◌<>◌}
use boreas.Core.Errors.{Err, ok, err_not_found, err_forbidden}
use boreas.Core.Model.{User, ProjectAccess, is_admin}
use boreas.Store.Inbox.{Inbox, get}
use boreas.App.{Env, App, query, pure, fail, lift, tick_of, ◌>>=◌}
use boreas.Project.Fleet.{FleetTask, fleet}
use boreas.Bora.Aid.{Aid}
use boreas.Bora.State.{Bora}
use boreas.Bora.Lookup.{has_slug, task}
use boreas.Bora.About.{
  AboutKind, BoraAbout, is_fleet, bora_serves, served_of, unserved_of, about_note, task_subject,
  narrowed,
}

-- A new answer over the projects that are served.
abbrev pub opened : User → List FleetTask → List ProjectAccess → List Bool → Bora
opened actor rows accesses served = record {
  actor = actor;
  members = served_of served accesses;
  unserved = unserved_of served accesses;
  tasks = rows;
  read = [];
  label = "";
  subject = "";
  actions = [];
  sources = [];
  title = "";
  tainted = false;
}

abbrev pub no_members : List ProjectAccess → Bool
no_members [] = true
no_members (acc ∷ accs) = false

module _ (env : Env) (aid : Aid) (inbox : Inbox) where
  abbrev pub serves : List ProjectAccess → App Err (List Bool)
  serves accesses w = (ok (bora_serves aid.code w.tick accesses), tick_of w)

  abbrev pub alert : BoraAbout → ProjectAccess → Bora → App Err Bora
  alert a acc b = do
    n ← query env λ db. get db b.actor.id (is_admin b.actor) a.id inbox
    lift (about_note aid a acc n b)

  -- The subject of a kind within its project.
  abbrev pub subject_of : AboutKind → BoraAbout → Bool → ProjectAccess → Bora → App Err Bora
  subject_of AboutKind.project a follow_up acc b =
      pure (record b { label = "project " <> a.project })
  subject_of AboutKind.alert a follow_up acc b = alert a acc b
  subject_of _ a follow_up acc b = lift (task_subject aid a follow_up (task acc a.task b) b)

  -- A project that Bora does not serve, or that the user holds only grants in, is forbidden.
  abbrev pub in_project : BoraAbout → Bool → Option ProjectAccess → Bora → App Err Bora
  in_project a follow_up none b = fail err_forbidden
  in_project a follow_up (some acc) b = subject_of a.kind a follow_up acc (narrowed acc b)

  -- The subject, 404 where it is out of sight, and Bora narrowed to its project.
  unfoldable pub about : BoraAbout → Bool → List ProjectAccess → Bora → App Err Bora
  unfolding query task
  about a follow_up all b =
      if is_fleet a.kind
      then pure (record b { label = "every project they are a member of" })
      else if any (has_slug a.project) all
      then in_project a follow_up (find (has_slug a.project) b.members) b
      else fail err_not_found

  abbrev pub or_forbidden : BoraAbout → Bool → List ProjectAccess → Bora → App Err Bora
  or_forbidden a follow_up all b =
      if no_members b.members then fail err_forbidden else about a follow_up all b

  unfoldable pub new_bora : User → BoraAbout → Bool → App Err Bora
  unfolding fleet about
  new_bora actor a follow_up = do
    seen ← fleet env actor
    served ← serves seen.0
    or_forbidden a follow_up seen.0 (opened actor seen.1 seen.0 served)
