-- ===== src/Bora/Rounds/Reads.antt =====
-- What a code tool of internal/service/bora_tools.go leaves of an answer: whatever comes of the call,
-- only safe buttons follow it.
use boreas.Prelude.{
  sym, ap, ◌∙◌, ℕ, zero, suc, ◌+◌, ◌-◌, ltb, leb, if◌then◌else◌, ◌≡◌, refl, String, Bool, true,
  false, ◌&&◌, ◌||◌, inl, inr, Option, none, some, is_some, List, [], ◌∷◌, ◌++◌, any, arith,
  Bool-cases,
}
use boreas.Core.Errors.{Err, Result, ok, err}
use boreas.App.{Env}
use boreas.Bora.Aid.{Aid, CodeIndex}
use boreas.Bora.State.{Bora, Session, Tool}
use boreas.Bora.Code
use boreas.Bora.Tools.{
  Use, use_tool, wired, propose_action, set_title, search_code, ask_sourcebot, read_file, blame,
  code_history, code_diff, task_logs, members, grants, other,
}
use boreas.Bora.Diff.{byte_len}
use boreas.Bora.Rounds.{Message, Ending, Next, max_rounds, reply, replies, judge, on_next, rounds}
use boreas.Bora.Rounds.Runs.{AddsSafe, AddsSafe-refl, AddsSafe-trans, use_tool-AddsSafe}

-- The tools that read code, or what the code search answers.
abbrev pub reads_code : Use → Bool
reads_code (search_code project query) = true
reads_code (ask_sourcebot project query) = true
reads_code (read_file project repo path ref) = true
reads_code (blame project repo path ref) = true
reads_code (code_history project repo ref path query) = true
reads_code (code_diff project repo base head path) = true
reads_code _ = false

abbrev with_taint : Session → Session
with_taint s = record s { bora = Code.taint s.bora }

wired_same :
    (code : Option CodeIndex) (name : String) (f : CodeIndex → Tool String) (s t : Session)
    → ((index : CodeIndex) → f index s ≡ f index t)
    → is_some code ≡ true
    → wired code name f s ≡ wired code name f t
unfolding wired
wired_same none name f s t h k = cc
wired_same (some index) name f s t h k = h index

module _ (env : Env) (aid : Aid) (first : Bool) where
  -- A session after calls, in their order.
  abbrev pub calls : List Use → Session → Session
  calls [] s = s
  calls (u ∷ us) s = calls us (use_tool env aid first u s).1

  pub calls-append : (us vs : List Use) (s : Session) → calls (us ++ vs) s ≡ calls vs (calls us s)
  calls-append [] vs s = refl
  calls-append (u ∷ us) vs s = calls-append us vs (use_tool env aid first u s).1

  use_tool-with_taint :
      (u : Use) (s : Session)
      → is_some aid.code ≡ true
      → reads_code u ≡ true
      → use_tool env aid first u s ≡ use_tool env aid first u (with_taint s)
  unfolding use_tool Code.search_code Code.ask_sourcebot Code.read_file Code.blame Code.code_history
      Code.code_diff boreas.Bora.State.◌>>=◌
  use_tool-with_taint (search_code p q) s h r =
      wired_same aid.code "search_code" _ s (with_taint s) (λ index. refl) h
  use_tool-with_taint (ask_sourcebot p q) s h r =
      wired_same aid.code "ask_sourcebot" _ s (with_taint s) (λ index. refl) h
  use_tool-with_taint (read_file p a b c) s h r =
      wired_same aid.code "read_file" _ s (with_taint s) (λ index. refl) h
  use_tool-with_taint (blame p a b c) s h r =
      wired_same aid.code "blame" _ s (with_taint s) (λ index. refl) h
  use_tool-with_taint (code_history p a b c d) s h r =
      wired_same aid.code "code_history" _ s (with_taint s) (λ index. refl) h
  use_tool-with_taint (code_diff p a b c d) s h r =
      wired_same aid.code "code_diff" _ s (with_taint s) (λ index. refl) h
  use_tool-with_taint (propose_action p) s h r = cc
  use_tool-with_taint (set_title t) s h r = cc
  use_tool-with_taint (task_logs p t n a) s h r = cc
  use_tool-with_taint (members p) s h r = cc
  use_tool-with_taint (grants p t) s h r = cc
  use_tool-with_taint (other name) s h r = cc

  -- Code is read on a deployment with code search.
  abbrev pub has_read : List Use → Bool
  has_read us = is_some aid.code && any reads_code us

  use_tool_taints :
      (u : Use) (s : Session)
      → (s.bora.tainted || (is_some aid.code && reads_code u)) ≡ true
      → (use_tool env aid first u s).1.bora.tainted ≡ true
  use_tool_taints u s h = elim (Bool-cases s.bora.tainted) [
    | inl t ↦ (use_tool-AddsSafe env aid first u s t).3
    | inr t ↦
        let same = use_tool-with_taint u s (ground (arith, t, h)) (ground (arith, t, h)) in
        rw same (use_tool-AddsSafe env aid first u (with_taint s) refl).3
  ]

  calls_taint :
      (us : List Use) (s : Session)
      → (s.bora.tainted || has_read us) ≡ true
      → (calls us s).bora.tainted ≡ true
  calls_taint [] s h = ground (arith, h)
  calls_taint (u ∷ us) s h =
      let next = (use_tool env aid first u s).1 in
      calls_taint us next
        (elim (Bool-cases (s.bora.tainted || (is_some aid.code && reads_code u))) [
          | inl t ↦ ground (arith, use_tool_taints u s t)
          | inr t ↦ ground (arith, h, t)
        ])

  pub calls-AddsSafe :
      (us : List Use) (s : Session) → s.bora.tainted ≡ true → AddsSafe s.bora (calls us s).bora
  calls-AddsSafe [] s t = AddsSafe-refl s.bora t
  calls-AddsSafe (u ∷ us) s t =
      let next = (use_tool env aid first u s).1 in
      let h = use_tool-AddsSafe env aid first u s t in
      AddsSafe-trans s.bora next.bora (calls us next).bora h (calls-AddsSafe us next h.3)

  -- Past any point at which the answer has read code, or if it began with an image, the buttons that
  -- it had stay and those that are added are safe.
  abbrev pub IsGuarded : Session → List Use → Type 0
  IsGuarded s us =
      (before after : List Use)
      → us ≡ before ++ after
      → (s.bora.tainted || has_read before) ≡ true
      → AddsSafe (calls before s).bora (calls us s).bora

  pub calls-IsGuarded : (s : Session) (us : List Use) → IsGuarded s us
  calls-IsGuarded s us before after e h =
      rw (e, calls-append before after s)
        (calls-AddsSafe after (calls before s) (calls_taint before s h))

  -- The calls of a round that are run: those before the budget is spent.
  abbrev made : ℕ → ℕ → List Use → Session → List Use
  made budget used [] s = []
  made budget used (u ∷ us) s =
      let (text, s') = reply env aid first budget used u s in
      let rest = made budget (used + byte_len text) us s' in
      if ltb used budget then u ∷ rest else rest

  reply-session :
      (budget used : ℕ) (u : Use) (s : Session)
      → (reply env aid first budget used u s).1
        ≡ (if ltb used budget then (use_tool env aid first u s).1 else s)
  unfolding reply
  reply-session budget used u s = elim (Bool-cases (ltb used budget)) [
    | inl e ↦ rw e refl
    | inr e ↦ rw e refl
  ]

  calls-if :
      (runs : Bool) (u : Use) (us : List Use) (s : Session)
      → calls us (if runs then (use_tool env aid first u s).1 else s)
        ≡ calls (if runs then u ∷ us else us) s
  calls-if true u us s = refl
  calls-if false u us s = refl

  replies-calls :
      (us : List Use) (budget used : ℕ) (s : Session)
      → (replies env aid first budget used us s).session ≡ calls (made budget used us s) s
  unfolding replies
  replies-calls [] budget used s = refl
  replies-calls (u ∷ us) budget used s =
      let (text, next) = reply env aid first budget used u s in
      let rest = made budget (used + byte_len text) us next in
      replies-calls us budget (used + byte_len text) next
      ∙ ap (calls rest) (reply-session budget used u s)
      ∙ calls-if (ltb used budget) u rest s

  module _ (clarify : Bool) (budget : ℕ) (model : List (List String) → Result Err Message) where
    -- The calls that the rounds of an answer run, of those that the model asks for, in their order.
    abbrev made_in : (fuel round used : ℕ) → Bool → List (List String) → Session → List Use
    made_in zero round used final history s = []
    made_in (suc fuel) round used final history s =
        on_next (judge aid clarify final (model history)) (λ ending. [])
          λ us.
            let out = replies env aid first (budget - used) 0 us s in
            let total = used + out.used in
            made (budget - used) 0 us s
            ++ made_in fuel (suc round) total (leb max_rounds round || leb budget total)
                (history ++ out.replies ∷ []) out.session

    -- The calls that a whole answer runs.
    abbrev pub answer_calls : Session → List Use
    answer_calls s = made_in (suc max_rounds) 1 0 false [] s

    on_next-calls :
        (n : Next) (s : Session) (go : List Use → Option Ending × Session)
        (rest : List Use → List Use)
        → ((us : List Use) → (go us).1 ≡ calls (rest us) s)
        → (on_next n (λ e. (some e, s)) go).1 ≡ calls (on_next n (λ e. []) rest) s
    on_next-calls (err e) s go rest h = refl
    on_next-calls (ok us) s go rest h = h us

    pub rounds-calls :
        (fuel round used : ℕ) (final : Bool) (history : List (List String)) (s : Session)
        → (rounds env aid first clarify budget model fuel round used final history s).1
          ≡ calls (made_in fuel round used final history s) s
    unfolding rounds
    rounds-calls zero round used final history s = refl
    rounds-calls (suc fuel) round used final history s =
        on_next-calls (judge aid clarify final (model history)) s _ _ λ us.
          let out = replies env aid first (budget - used) 0 us s in
          let run = made (budget - used) 0 us s in
          let total = used + out.used in
          let later =
            made_in fuel (suc round) total (leb max_rounds round || leb budget total)
              (history ++ out.replies ∷ []) out.session in
          rounds-calls fuel (suc round) _ _ _ out.session
          ∙ ap (calls later) (replies-calls us (budget - used) 0 s)
          ∙ sym (calls-append run later s)
