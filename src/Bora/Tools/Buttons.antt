-- ===== src/Bora/Tools/Buttons.antt =====
-- What a sound set of buttons is, and what a proposal leaves of an answer besides them.
use boreas.Prelude.Find.{any-append}
use boreas.Prelude.{
  ◌+◌, ◌≤◌, ◌≡◌, refl, ◌∙◌, String, true, false, some, List, [], ◌∷◌, ◌++◌, any, length, All, arith,
  find, is_some,
}
use boreas.Core.Roles.{ProjectRole, rank, is_grantable}
use boreas.Core.Model.{User, ProjectAccess, is_admin}
use boreas.Project.Fleet.{FleetTask}
use boreas.App.{Env}
use boreas.Bora.Aid.{Aid}
use boreas.Bora.State.{Bora, Session, Tool, update, ◌>>=◌}
use boreas.Bora.Action.{BoraOp, Proposal, BoraAction, need, same_button, grant_add}
use boreas.Bora.Lookup.{has_slug, project, task, task_among}
use boreas.Bora.Propose.{max_actions, offer, propose_on, propose}
use boreas.Bora.Propose.Laws.{IsFit, acting_role}
use boreas.Bora.Tools.Laws.{bind_keeps}

-- A button of an answer for this user, over these projects and tasks: it is on one of the projects, in
-- a role there that suffices for the route, names a credential for an admin alone, and grants no role
-- above member.
pub record IsOffered (actor : User) (members : List ProjectAccess) (tasks : List FleetTask)
    (a : BoraAction) : Type 0 where
  pub place :
      (acc : ProjectAccess) × (role : ProjectRole) × (find (has_slug a.project) members ≡ some acc)
      × (acting_role a.op acc (task_among tasks acc a.task) ≡ some role)
      × (rank (need a.op) ≤ rank role)
  pub admin_only : is_some a.registry_credential_id ≡ true → is_admin actor ≡ true
  pub grant : a.op ≡ grant_add → is_grantable a.role ≡ true

-- No two buttons make the same change to the same project, task or user.
abbrev pub IsDistinct : List BoraAction → Type 0
IsDistinct [] = Unit
IsDistinct (a ∷ as') = (any (same_button a) as' ≡ false) × IsDistinct as'

pub record IsSound (b : Bora) : Type 0 where
  pub offered : All (IsOffered b.actor b.members b.tasks) b.actions
  pub few : length b.actions ≤ max_actions
  pub distinct : IsDistinct b.actions

-- The user, the projects, the tasks and the taint stay.
pub record IsKept (b c : Bora) : Type 0 where
  pub actor : c.actor ≡ b.actor
  pub members : c.members ≡ b.members
  pub tasks : c.tasks ≡ b.tasks
  pub tainted : c.tainted ≡ b.tainted

IsKept-refl : (b : Bora) → IsKept b b
IsKept-refl b = record { actor = refl; members = refl; tasks = refl; tainted = refl }

IsKept-trans : (b c d : Bora) → IsKept b c → IsKept c d → IsKept b d
IsKept-trans b c d h k = record {
  actor = k.actor ∙ h.actor;
  members = k.members ∙ h.members;
  tasks = k.tasks ∙ h.tasks;
  tainted = k.tainted ∙ h.tainted;
}

abbrev pub Keeps : {A : Type 0} → Tool A → Type 0
Keeps m = (s : Session) → IsKept s.bora (m s).1.bora

Keeps-bind :
    {A B : Type 0} (m : Tool A) (f : A → Tool B)
    → Keeps m
    → ((a : A) → Keeps (f a))
    → Keeps (m >>= f)
Keeps-bind m f h k = bind_keeps IsKept IsKept-trans m f h k

project-Keeps : (slug : String) → Keeps (project slug)
unfolding project
project-Keeps slug s = record { actor = refl; members = refl; tasks = refl; tainted = refl }

offer-Keeps : (a : BoraAction) → Keeps (update (offer a))
offer-Keeps a s = record { actor = refl; members = refl; tasks = refl; tainted = refl }

propose_on-Keeps :
    (env : Env) (aid : Aid) (p : Proposal) (op : BoraOp) (acc : ProjectAccess)
    → Keeps (propose_on env aid p op acc)
unfolding propose_on
propose_on-Keeps env aid p op acc =
    Keeps-bind _ _ (λ s. IsKept-refl s.bora)
      λ role.
        Keeps-bind _ _ (λ s. IsKept-refl s.bora)
          λ _.
            Keeps-bind _ _ (λ s. IsKept-refl s.bora)
              λ a. Keeps-bind _ _ (λ s. IsKept-refl s.bora) λ _. offer-Keeps a

pub propose-Keeps : (env : Env) (aid : Aid) (p : Proposal) → Keeps (propose env aid p)
unfolding propose
propose-Keeps env aid p =
    Keeps-bind _ _ (λ s. IsKept-refl s.bora)
      λ op.
        Keeps-bind _ _ (λ s. IsKept-refl s.bora)
          λ _. Keeps-bind _ _ (project-Keeps p.project) λ seen.
            Keeps-bind _ _ (λ s. IsKept-refl s.bora)
              λ acc.
                Keeps-bind _ _ (λ s. IsKept-refl s.bora)
                  λ _. Keeps-bind _ _ (propose_on-Keeps env aid p op acc) λ _ s. IsKept-refl s.bora

pub IsOffered-of_fit :
    (b : Bora) (a : BoraAction) → IsFit b a → IsOffered b.actor b.members b.tasks a
unfolding task
IsOffered-of_fit b a fit = record {
  place = fit.place;
  admin_only = fit.admin_only;
  grant = fit.grant;
}

pub All-snoc :
    {A : Type 0} (P : A → Type 0) (xs : List A) (x : A) → All P xs → P x → All P (xs ++ x ∷ [])
All-snoc P [] x h p = (p, tt)
All-snoc P (y ∷ ys) x h p = (h.0, All-snoc P ys x h.1 p)

pub IsDistinct-snoc :
    (xs : List BoraAction) (a : BoraAction)
    → any (λ old. same_button old a) xs ≡ false
    → IsDistinct xs
    → IsDistinct (xs ++ a ∷ [])
IsDistinct-snoc [] a new h = (refl, tt)
IsDistinct-snoc (x ∷ xs) a new h = (
  any-append (same_button x) xs (a ∷ []) ∙ ground (arith, h.0, new),
  IsDistinct-snoc xs a (ground (arith, new)) h.1,
)

pub length-snoc : {A : Type 0} (xs : List A) (x : A) → length (xs ++ x ∷ []) ≡ length xs + 1
length-snoc [] x = refl
length-snoc (y ∷ ys) x = omega (arith, length-snoc ys x)
