-- ===== src/Bora/Propose/Sound.antt =====
-- A proposal adds one button that is fit and new, or none.
use mathlib.Core.Path.{subst}
use boreas.Prelude.{
  ◌≡◌, refl, ◌<◌, String, true, false, Option, some, List, any, find, length, arith,
}
use boreas.Core.Errors.{Err, Result, ok, err}
use boreas.Core.Model.{Uuid, ProjectAccess}
use boreas.App.{Env}
use boreas.Bora.State.{Bora, Session, Tool, check, run, lift, pure, ◌>>=◌, ◌>>◌}
use boreas.Bora.State.Laws.{tool_rule}
use boreas.Bora.Aid.{Aid}
use boreas.Bora.Action.{BoraOp, is_safe, BoraAction, same_button, Proposal, op_named}
use boreas.Bora.Lookup.{has_slug, seen_id, mark_read, project, task}
use boreas.Bora.Fields.{fields}
use boreas.Bora.Propose.{
  max_actions, role_there, allowed, action_of, op_of, or_stranger, proposed, no_button, safe_check,
  room_check, propose_on, propose,
}
use boreas.Bora.Propose.Laws.{IsFit, Outcome, IsFit-of_fields, safe_check-safe}

no_button-new :
    (a : BoraAction) (b : Bora)
    → no_button a b ≡ ok tt
    → any (λ old. same_button old a) b.actions ≡ false
no_button-new a b h = ground arith

room_check-lt : (b : Bora) → room_check b ≡ ok tt → length b.actions < max_actions
room_check-lt b h = ground arith

module _ (env : Env) (aid : Aid) (p : Proposal) (op : BoraOp) (acc : ProjectAccess) (s : Session)
    (seen : find (has_slug p.project) s.bora.members ≡ some acc)
    (safe : s.bora.tainted ≡ true → is_safe op ≡ true)
    (room : length s.bora.actions < max_actions) where
  abbrev After : {A : Type 0} → Result Err A → Session → Type 0
  After r s' = Outcome s.bora r s'.bora

  pub propose_on_outcome : After (propose_on env aid p op acc s).0 (propose_on env aid p op acc s).1
  unfolding propose_on
  propose_on_outcome =
      tool_rule After (check λ b. role_there op acc (task acc p.task b) p) _ s (λ e _. refl)
        λ role there.
          tool_rule After (lift (allowed op p role)) _ s (λ e _. refl)
            λ _ enough.
              tool_rule After fill _ s (λ e _. refl)
                λ a filled.
                  tool_rule After (check (no_button a)) _ (fill s).1 (λ e _. refl)
                    λ _ new. (
                      a,
                      refl,
                      IsFit-of_fields env aid op acc p s role a seen safe there enough filled,
                      no_button-new a s.bora new,
                      room,
                    )
    where
      fill : Tool BoraAction
      fill = run λ b. fields env aid b.actor op acc (task acc p.task b) p (action_of aid op p)

found_of :
    (slug : String) (o seen : Option ProjectAccess) (acc : ProjectAccess)
    → ◌≡◌ {A = Result Err (Option ProjectAccess)} (ok o) (ok seen)
    → or_stranger slug seen ≡ ok acc
    → o ≡ some acc
found_of slug o seen acc e h = ground arith

-- What an answer has read does not count.
IsFit-unread : (ids : List Uuid) (b : Bora) (a : BoraAction) → IsFit (mark_read ids b) a → IsFit b a
unfolding task
IsFit-unread ids b a fit = record {
  place = fit.place;
  safe = fit.safe;
  admin_only = fit.admin_only;
  grant = fit.grant;
}

Outcome-unread :
    {A : Type 0} (ids : List Uuid) (b b' : Bora) (r : Result Err A)
    → Outcome (mark_read ids b) r b'
    → Outcome b r b'
Outcome-unread ids b b' (ok x) (a, same, fit, new, room) =
    (a, same, IsFit-unread ids b a fit, new, room)
Outcome-unread ids b b' (err e) same = same

module _ (env : Env) (aid : Aid) (p : Proposal) (s : Session) where
  -- The session once the project is looked up.
  abbrev looked : Session
  looked = record s { bora = mark_read (seen_id (find (has_slug p.project) s.bora.members)) s.bora }

  abbrev Reply : {A : Type 0} → Result Err A → Session → Type 0
  Reply r s' = Outcome s.bora r s'.bora

  propose_rest :
      (op : BoraOp) (acc : ProjectAccess)
      → find (has_slug p.project) s.bora.members ≡ some acc
      → (s.bora.tainted ≡ true → is_safe op ≡ true)
      → length s.bora.actions < max_actions
      → Reply (propose_on env aid p op acc looked).0 (propose_on env aid p op acc looked).1
  propose_rest op acc seen safe room =
      Outcome-unread (seen_id (find (has_slug p.project) s.bora.members)) s.bora
        (propose_on env aid p op acc looked).1.bora (propose_on env aid p op acc looked).0
        (propose_on_outcome env aid p op acc looked seen safe room)

  -- What is left of `propose` at each of its steps.
  abbrev offered : BoraOp → ProjectAccess → Tool String
  offered op acc = propose_on env aid p op acc >> pure (proposed op p)

  abbrev roomed : BoraOp → ProjectAccess → Tool String
  roomed op acc = check room_check >> offered op acc

  abbrev known : BoraOp → Option ProjectAccess → Tool String
  known op seen = lift (or_stranger p.project seen) >>= roomed op

  abbrev named : BoraOp → Tool String
  named op = check (safe_check op) >> (project p.project >>= known op)

  offered_outcome :
      (op : BoraOp) (acc : ProjectAccess)
      → find (has_slug p.project) s.bora.members ≡ some acc
      → (s.bora.tainted ≡ true → is_safe op ≡ true)
      → length s.bora.actions < max_actions
      → Reply (offered op acc looked).0 (offered op acc looked).1
  offered_outcome op acc seen safe room =
      let out = propose_rest op acc seen safe room in
      let after = (propose_on env aid p op acc looked).1.bora in
      tool_rule Reply (propose_on env aid p op acc) (λ _. pure (proposed op p)) looked
        (λ e failed. subst (λ r. Outcome s.bora r after) failed out)
        λ _ done. subst (λ r. Outcome s.bora r after) done out

  known_outcome :
      (op : BoraOp) (seen : Option ProjectAccess)
      → (project p.project s).0 ≡ ok seen
      → (s.bora.tainted ≡ true → is_safe op ≡ true)
      → Reply (known op seen looked).0 (known op seen looked).1
  unfolding project
  known_outcome op seen saw safe =
      tool_rule Reply (lift (or_stranger p.project seen)) (roomed op) looked (λ e _. refl)
        λ acc is_known.
          tool_rule Reply (check room_check) (λ _. offered op acc) looked (λ e _. refl)
            λ _ room.
              offered_outcome op acc (found_of p.project _ seen acc saw is_known) safe
                (room_check-lt s.bora room)

  named_outcome : (op : BoraOp) → Reply (named op s).0 (named op s).1
  unfolding project
  named_outcome op =
      tool_rule Reply (check (safe_check op)) (λ _. project p.project >>= known op) s (λ e _. refl)
        λ _ safe.
          tool_rule Reply (project p.project) (known op) s (λ e _. refl)
            λ seen saw. known_outcome op seen saw (safe_check-safe op s.bora safe)

-- A proposal that is accepted adds one button: on a project that the answer covers, for an op whose
-- route's role the actor holds there, safe once code or an image was read, with no credential unless
-- the actor is an admin, no grant above member, no second button for the same change, and at most ten
-- in all. A refused one adds none.
pub propose_sound :
    (env : Env) (aid : Aid) (p : Proposal) (s : Session)
    → Outcome s.bora (propose env aid p s).0 (propose env aid p s).1.bora
unfolding propose
propose_sound env aid p s =
    tool_rule (Reply env aid p s) (lift (op_of (op_named env.unicode_lower p.op)))
      (named env aid p s) s (λ e _. refl) λ op _. named_outcome env aid p s op
