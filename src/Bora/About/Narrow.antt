-- ===== src/Bora/About/Narrow.antt =====
-- An answer keeps to the projects that its question is about.
use mathlib.Core.Path.{subst}
use mathlib.Core.List.{Memᴰ}
use boreas.Prelude.{
  ◌≡◌, ◌||◌, ◌⊎◌, inl, inr, Bool-cases, refl, sym, ap, Bool, true, false, Option, none, some, List,
  [], ◌∷◌, find, any, arith, if◌then◌else◌, ◌==◌,
}
use boreas.Prelude.Find.{find_sound}
use boreas.Core.Errors.{Err, Result, ok, err, err_not_found, err_forbidden}
use boreas.Core.Model.{User, ProjectAccess, is_admin}
use boreas.Store.Inbox.{Inbox, Note, get}
use boreas.App.{Env, World, query, pure, fail, lift, ◌>>=◌}
use boreas.App.Laws.{bind-ok}
use boreas.Project.Fleet.{FleetTask, fleet}
use boreas.Project.Fleet.Laws.{IsMemberOf, fleet-IsMemberOf}
use boreas.Bora.Aid.{Aid}
use boreas.Bora.State.{Bora}
use boreas.Bora.Lookup.{has_slug, task}
use boreas.Bora.About.{
  AboutKind, BoraAbout, bora_serves, about_note, task_subject, narrowed, is_fleet,
}
use boreas.Bora.About.Open.{
  opened, no_members, or_forbidden, serves, alert, subject_of, in_project, about, new_bora,
}
use boreas.Bora.About.Laws.{served_of-bora_serves}

-- The subject changes no project, button or user.
record Stays (b c : Bora) : Type 0 where
  pub actor : c.actor ≡ b.actor
  pub actions : c.actions ≡ b.actions
  pub members : c.members ≡ b.members

ok_inj : {b c : Bora} → ◌≡◌ {A = Result Err Bora} (ok b) (ok c) → b ≡ c
ok_inj e = cc

gives_stays : {b c d : Bora} → Stays b d → ◌≡◌ {A = Result Err Bora} (ok d) (ok c) → Stays b c
gives_stays {b} h e = subst (Stays b) (ok_inj e) h

same : (b : Bora) → Stays b b
same b = record { actor = refl; actions = refl; members = refl }

if_gives :
    (t : Bool) (e : Err) {b c d : Bora}
    → Stays b d
    → ◌≡◌ {A = Result Err Bora} (if t then ok d else err e) (ok c)
    → Stays b c
if_gives true e h k = gives_stays h k
if_gives false e h k = cc

module _ (env : Env) (aid : Aid) (inbox : Inbox) (a : BoraAbout) where
  about_note-Stays :
      (acc : ProjectAccess) (n : Note) (b c : Bora) → about_note aid a acc n b ≡ ok c → Stays b c
  about_note-Stays acc n b c h =
      if_gives (n.note.project_id == acc.project.id) err_not_found
        (record { actor = refl; actions = refl; members = refl }) h

  task_subject-Stays :
      (follow_up : Bool) (row : Option FleetTask) (b c : Bora)
      → task_subject aid a follow_up row b ≡ ok c
      → Stays b c
  task_subject-Stays true none b c h =
      gives_stays (record { actor = refl; actions = refl; members = refl }) h
  task_subject-Stays false none b c h = cc
  task_subject-Stays follow_up (some row) b c h =
      gives_stays (record { actor = refl; actions = refl; members = refl }) h

  alert-Stays :
      (acc : ProjectAccess) (b c : Bora) (w : World)
      → (alert env aid inbox a acc b w).0 ≡ ok c
      → Stays b c
  alert-Stays acc b c w h =
      let (n, r, k) =
        bind-ok (query env λ db. get db b.actor.id (is_admin b.actor) a.id inbox)
          (λ n. lift (about_note aid a acc n b)) w h in
      about_note-Stays acc n b c k

  subject_of-Stays :
      (k : AboutKind) (follow_up : Bool) (acc : ProjectAccess) (b c : Bora) (w : World)
      → (subject_of env aid inbox k a follow_up acc b w).0 ≡ ok c
      → Stays b c
  subject_of-Stays AboutKind.project follow_up acc b c w h =
      gives_stays (record { actor = refl; actions = refl; members = refl }) h
  subject_of-Stays AboutKind.alert follow_up acc b c w h = alert-Stays acc b c w h
  subject_of-Stays AboutKind.fleet follow_up acc b c w h =
      task_subject-Stays follow_up (task acc a.task b) b c h
  subject_of-Stays AboutKind.task follow_up acc b c w h =
      task_subject-Stays follow_up (task acc a.task b) b c h
  subject_of-Stays AboutKind.build follow_up acc b c w h =
      task_subject-Stays follow_up (task acc a.task b) b c h
  subject_of-Stays AboutKind.log follow_up acc b c w h =
      task_subject-Stays follow_up (task acc a.task b) b c h
  subject_of-Stays (AboutKind.unnamed s) follow_up acc b c w h =
      task_subject-Stays follow_up (task acc a.task b) b c h

  -- The user and the buttons stay, and the projects are the one that the question is about, or all
  -- of them where it is about the fleet.
  record Within (b c : Bora) : Type 0 where
    pub actor : c.actor ≡ b.actor
    pub actions : c.actions ≡ b.actions
    pub members :
        (x : ProjectAccess)
        → Memᴰ x c.members
        → Memᴰ x b.members × (is_fleet a.kind || has_slug a.project x ≡ true)

  only : (acc x : ProjectAccess) (c : Bora) → c.members ≡ acc ∷ [] → Memᴰ x c.members → x ≡ acc
  only acc x c h m = elim (subst (Memᴰ x) h m) [ Memᴰ.head e ↦ e | Memᴰ.tail k ↦ elim k [ ] ]

  in_project-Within :
      (follow_up : Bool) (found : Option ProjectAccess) (b c : Bora) (w : World)
      → found ≡ find (has_slug a.project) b.members
      → (in_project env aid inbox a follow_up found b w).0 ≡ ok c
      → Within b c
  in_project-Within follow_up none b c w f h = cc
  in_project-Within follow_up (some acc) b c w f h =
      let k = subject_of-Stays a.kind follow_up acc (narrowed acc b) c w h in
      let (m, p) = find_sound (has_slug a.project) b.members acc (sym f) in
      record {
        actor = k.actor;
        actions = k.actions;
        members = λ x n.
            let e = only acc x c k.members n in
            (rw e m, ground (arith, ap (has_slug a.project) e, p));
      }

  narrow-Within :
      (every seen : Bool) (follow_up : Bool) (b c : Bora) (w : World)
      → every ≡ is_fleet a.kind
      → ((if every
            then pure (record b { label = "every project they are a member of" })
            else if seen
            then in_project env aid inbox a follow_up (find (has_slug a.project) b.members) b
            else fail err_not_found)
          w).0
        ≡ ok c
      → Within b c
  narrow-Within true seen follow_up b c w e h =
      let k : Stays b c = gives_stays (record { actor = refl; actions = refl; members = refl }) h in
      record {
        actor = k.actor;
        actions = k.actions;
        members = λ x m. (subst (Memᴰ x) k.members m, ground (arith, e));
      }
  narrow-Within false true follow_up b c w e h =
      in_project-Within follow_up (find (has_slug a.project) b.members) b c w refl h
  narrow-Within false false follow_up b c w e h = cc

  about-Within :
      (follow_up : Bool) (all : List ProjectAccess) (b c : Bora) (w : World)
      → (about env aid inbox a follow_up all b w).0 ≡ ok c
      → Within b c
  unfolding about
  about-Within follow_up all b c w h =
      narrow-Within (is_fleet a.kind) (any (has_slug a.project) all) follow_up b c w refl h

  -- A new answer is the user's, has no button yet, and covers only projects that the user's fleet
  -- lists with all their tasks, with a stored membership unless the user is an administrator, and that
  -- the question is about.
  pub record Covers (user : User) (w : World) (b : Bora) (x : ProjectAccess) : Type 0 where
    pub actor : b.actor ≡ user
    pub actions : b.actions ≡ []
    pub listed :
        (accs : List ProjectAccess) × (rows : List FleetTask) × ((fleet env user w).0
          ≡ ok (accs, rows))
        × Memᴰ x accs
    pub all_tasks : x.all_tasks ≡ true
    pub admin : (is_admin user ≡ true) ⊎ IsMemberOf w.db user.id x.project.id
    pub subject : is_fleet a.kind || has_slug a.project x ≡ true

  or_forbidden-Within :
      (empty follow_up : Bool) (all : List ProjectAccess) (b c : Bora) (w : World)
      → ((if empty then fail err_forbidden else about env aid inbox a follow_up all b) w).0 ≡ ok c
      → Within b c
  or_forbidden-Within true follow_up all b c w h = cc
  or_forbidden-Within false follow_up all b c w h = about-Within follow_up all b c w h

  -- Where a new answer is opened, it is the user's and has no button yet, and each project it covers is
  -- listed by the user's fleet with all its tasks, one that they are a member of or that they see as an
  -- administrator, and, unless the question is about the whole fleet, the project that the question names.
  pub new_bora-Covers :
      (actor : User) (follow_up : Bool) (w : World) (b : Bora) (x : ProjectAccess)
      → (new_bora env aid inbox actor a follow_up w).0 ≡ ok b
      → Memᴰ x b.members
      → Covers actor w b x
  unfolding new_bora
  new_bora-Covers actor follow_up w b x h m =
      let ((accs, rows), f, h1) =
        bind-ok (fleet env actor)
          (λ seen. serves env aid inbox seen.0 >>= (λ served.
            or_forbidden env aid inbox a follow_up seen.0 (opened actor seen.1 seen.0 served)))
          w h in
      let w1 = (fleet env actor w).1 in
      let start = opened actor rows accs (bora_serves aid.code w1.tick accs) in
      let k = or_forbidden-Within (no_members start.members) follow_up accs start b _ h1 in
      let (n, p) = k.members x m in
      let (listed, t) = served_of-bora_serves aid.code w1.tick accs x n in
      record {
        actor = k.actor;
        actions = k.actions;
        listed = (accs, rows, f, listed);
        all_tasks = t;
        admin = elim (Bool-cases (is_admin actor)) [
          | inl e ↦ inl e
          | inr e ↦ inr (fleet-IsMemberOf env actor w accs rows x e f listed t)
        ];
        subject = p;
      }
