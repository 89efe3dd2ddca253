-- ===== src/Bora/Rounds/Runs.antt =====
-- What holds of the buttons at the end of an answer, and that every answer ends.
use mathlib.Core.Path.{subst}
use mathlib.Core.List.{append_assoc, append-nil}
use boreas.Prelude.Find.{all-append}
use boreas.Prelude.{
  ℕ, ◌≡◌, refl, sym, ◌∙◌, ap, String, Bool, true, false, ◌⊎◌, inl, inr, Option, some, List, [], ◌∷◌,
  ◌++◌, all, All, arith, ◌-◌, zero, suc, ltb, Bool-cases,
}
use boreas.Core.Errors.{Err, Result, ok, err}
use boreas.App.{Env}
use boreas.Bora.Aid.{Aid}
use boreas.Bora.State.{Bora, Session}
use boreas.Bora.Action.{Proposal, BoraAction, is_safe}
use boreas.Bora.Lookup.{project, task}
use boreas.Bora.Propose.{propose}
use boreas.Bora.Propose.Laws.{Outcome}
use boreas.Bora.Propose.Sound.{propose_sound}
use boreas.Bora.Tools.{
  Use, use_tool, is_proposal, propose_action, set_title, search_code, ask_sourcebot, read_file,
  blame, code_history, code_diff, task_logs, members, grants, other,
}
use boreas.Bora.Rounds.{Message, Ending, Next, reply, replies, judge, on_next, rounds}
use boreas.Bora.Tools.Laws.{IsFrame}
use boreas.Bora.Tools.Quiet.{use_tool-IsQuiet}
use boreas.Bora.Tools.Buttons.{
  IsOffered, IsSound, IsKept, propose-Keeps, IsOffered-of_fit, All-snoc, IsDistinct-snoc,
  length-snoc,
}

module _ (b c : Bora) where
  IsSound-of_frame : IsFrame b c → IsSound b → IsSound c
  IsSound-of_frame f h = record {
    offered = rw (f.actor, f.members, f.tasks, f.actions) h.offered;
    few = rw f.actions h.few;
    distinct = rw f.actions h.distinct;
  }

  offered-of_kept :
      (xs : List BoraAction)
      → IsKept b c
      → All (IsOffered b.actor b.members b.tasks) xs
      → All (IsOffered c.actor c.members c.tasks) xs
  offered-of_kept xs k h = rw (k.actor, k.members, k.tasks) h

  IsSound-of_outcome :
      {A : Type 0} (r : Result Err A) → IsKept b c → Outcome b r c → IsSound b → IsSound c
  IsSound-of_outcome (err e) k same h = record {
    offered = rw same (offered-of_kept b.actions k h.offered);
    few = rw same h.few;
    distinct = rw same h.distinct;
  }
  IsSound-of_outcome (ok x) k (a, more, fit, new, room) h = record {
    offered = rw more (
        offered-of_kept (b.actions ++ a ∷ []) k (
          All-snoc (IsOffered b.actor b.members b.tasks) b.actions a h.offered
            (IsOffered-of_fit b a fit)));
    few = rw more (rw (length-snoc b.actions a) (omega (arith, room)));
    distinct = rw more (IsDistinct-snoc b.actions a new h.distinct);
  }

is_proposal-cases : (u : Use) → ((p : Proposal) × (u ≡ propose_action p)) ⊎ (is_proposal u ≡ false)
is_proposal-cases (propose_action p) = inl (p, refl)
is_proposal-cases (other name) = inr refl
is_proposal-cases (set_title title) = inr refl
is_proposal-cases (search_code project query) = inr refl
is_proposal-cases (ask_sourcebot project query) = inr refl
is_proposal-cases (read_file project repo path ref) = inr refl
is_proposal-cases (blame project repo path ref) = inr refl
is_proposal-cases (code_history project repo ref path query) = inr refl
is_proposal-cases (code_diff project repo base head path) = inr refl
is_proposal-cases (task_logs project task tail since) = inr refl
is_proposal-cases (members project) = inr refl
is_proposal-cases (grants project task) = inr refl

-- What holds of proposals and of quiet tools holds of every tool.
use_tool_rule :
    (P : Use → Type 0)
    → ((p : Proposal) → P (propose_action p))
    → ((u : Use) → is_proposal u ≡ false → P u)
    → (u : Use) → P u
use_tool_rule P h k u = elim (is_proposal-cases u) [
  | inl (p, e) ↦ subst P (sym e) (h p)
  | inr e ↦ k u e
]

module _ (env : Env) (aid : Aid) (first : Bool) where
  pub use_tool-IsSound :
      (u : Use) (s : Session) → IsSound s.bora → IsSound (use_tool env aid first u s).1.bora
  unfolding use_tool
  use_tool-IsSound =
      use_tool_rule
        (λ u. (s : Session) → IsSound s.bora → IsSound (use_tool env aid first u s).1.bora)
        (λ p s h.
          IsSound-of_outcome s.bora (propose env aid p s).1.bora (propose env aid p s).0
            (propose-Keeps env aid p s) (propose_sound env aid p s) h)
        λ u e s h. IsSound-of_frame s.bora _ (use_tool-IsQuiet env aid first u e s) h

-- The buttons that were added to those of `b`, which are safe.
abbrev pub AddsSafe : Bora → Bora → Type 0
AddsSafe b c =
    (extra : List BoraAction) × (c.actions ≡ b.actions ++ extra)
    × (all (λ a. is_safe a.op) extra ≡ true)
    × (c.tainted ≡ true)

pub AddsSafe-refl : (b : Bora) → b.tainted ≡ true → AddsSafe b b
AddsSafe-refl b h = ([], sym (append-nil b.actions), refl, h)

pub AddsSafe-trans : (b c d : Bora) → AddsSafe b c → AddsSafe c d → AddsSafe b d
AddsSafe-trans b c d (xs, e, h, t) (ys, e', h', t') = (
  xs ++ ys,
  e' ∙ ap (λ zs. zs ++ ys) e ∙ append_assoc b.actions xs ys,
  all-append (λ a. is_safe a.op) xs ys ∙ rw (h, h'),
  t',
)

AddsSafe-of_outcome :
    {A : Type 0} (b c : Bora) (r : Result Err A)
    → IsKept b c
    → b.tainted ≡ true
    → Outcome b r c
    → AddsSafe b c
AddsSafe-of_outcome b c (err e) k t same =
    ([], same ∙ sym (append-nil b.actions), refl, k.tainted ∙ t)
AddsSafe-of_outcome b c (ok x) k t (a, more, fit, new, room) =
    (a ∷ [], more, rw (fit.safe t), k.tainted ∙ t)

module _ (env : Env) (aid : Aid) (first : Bool) where
  pub use_tool-AddsSafe :
      (u : Use) (s : Session)
      → s.bora.tainted ≡ true
      → AddsSafe s.bora (use_tool env aid first u s).1.bora
  unfolding use_tool
  use_tool-AddsSafe =
      use_tool_rule
        (λ u.
          (s : Session)
          → s.bora.tainted ≡ true
          → AddsSafe s.bora (use_tool env aid first u s).1.bora)
        (λ p s t.
          AddsSafe-of_outcome s.bora (propose env aid p s).1.bora (propose env aid p s).0
            (propose-Keeps env aid p s) t (propose_sound env aid p s))
        λ u e s t.
          let f = use_tool-IsQuiet env aid first u e s in
          ([], f.actions ∙ sym (append-nil s.bora.actions), refl, f.tainted t)

-- What every call of a tool keeps, a round keeps, and so does an answer.
module _ (env : Env) (aid : Aid) (first : Bool) (P : Session → Type 0)
    (keeps : (u : Use) (s : Session) → P s → P (use_tool env aid first u s).1) where
  reply_keeps :
      (budget used : ℕ) (u : Use) (s : Session) → P s → P (reply env aid first budget used u s).1
  unfolding reply
  reply_keeps budget used u s h = elim (Bool-cases (ltb used budget)) [
    | inl e ↦ rw e (keeps u s h)
    | inr e ↦ rw e h
  ]

  replies_keep :
      (us : List Use) (budget used : ℕ) (s : Session)
      → P s
      → P (replies env aid first budget used us s).session
  unfolding replies
  replies_keep [] budget used s h = h
  replies_keep (u ∷ us) budget used s h =
      replies_keep us budget _ (reply env aid first budget used u s).1
        (reply_keeps budget used u s h)

  on_next_keeps :
      (n : Next) (s : Session) (stop : Ending → Option Ending)
      (go : List Use → Option Ending × Session)
      → P s
      → ((us : List Use) → P (go us).1)
      → P (on_next n (λ e. (stop e, s)) go).1
  on_next_keeps (err e) s stop go h k = h
  on_next_keeps (ok us) s stop go h k = k us

  module _ (clarify : Bool) (budget : ℕ) (model : List (List String) → Result Err Message) where
    pub rounds_keep :
        (fuel round used : ℕ) (final : Bool) (history : List (List String)) (s : Session)
        → P s
        → P (rounds env aid first clarify budget model fuel round used final history s).1
    unfolding rounds
    rounds_keep zero round used final history s h = h
    rounds_keep (suc fuel) round used final history s h =
        on_next_keeps (judge aid clarify final (model history)) s some _ h
          λ calls. rounds_keep fuel (suc round) _ _ _ _ (replies_keep calls (budget - used) 0 s h)
