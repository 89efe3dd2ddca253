-- ===== src/Task/Ready/Laws.antt =====
-- How long a start waits.
use boreas.Prelude.{
  ℕ, zero, suc, ◌≤◌, String, ◌≡◌, refl, ap, ◌∙◌, true, false, Option, none, some, List, ◌∷◌, arith,
  inl, inr, ◌⊎◌,
}
use boreas.Prelude.Text.{is_empty}
use boreas.Core.Errors.{Err, Result, Result-cases, ok, err, ErrKind}
use boreas.Core.Enums.{TaskStatus, running, stopped, error}
use boreas.Core.Model.{ContainerState}
use boreas.App.{Env, World, App, Call, continue, pure, fail, inspect_container}
use boreas.Task.Reply.{is_running}
use boreas.Task.Ready.{has_ended, poll, wait_ready, deadline_exceeded}

abbrev pub inspections : ℕ → String → List Call → List Call
inspections zero id log = log
inspections (suc n) id log = inspections n id (inspect_container id ∷ log)

running_is : (s : TaskStatus) → is_running s ≡ true → s ≡ running
running_is running h = refl
running_is TaskStatus.creating h = cc
running_is stopped h = cc
running_is error h = cc
running_is TaskStatus.starting h = cc
running_is TaskStatus.unknown h = cc

ended_is : (s : TaskStatus) → has_ended s ≡ true → (s ≡ stopped) ⊎ (s ≡ error)
ended_is stopped h = inl refl
ended_is error h = inr refl
ended_is TaskStatus.creating h = cc
ended_is running h = cc
ended_is TaskStatus.starting h = cc
ended_is TaskStatus.unknown h = cc

module _ (env : Env) (id : String) where
  poll_log : (w : World) → (poll env id w).1.log ≡ inspect_container id ∷ w.log
  unfolding poll
  poll_log w = ground arith

  poll_tick : (w : World) → w.tick ≤ (poll env id w).1.tick
  unfolding poll
  poll_tick w = ground arith

  -- What an inspection from `w` on said.
  abbrev IsSeen : World → ContainerState → Type 0
  IsSeen w state = (t : ℕ) × (w.tick ≤ t) × (env.inspect t ≡ ok state)

  IsSeen-earlier :
      (w w1 : World) (state : ContainerState) → w.tick ≤ w1.tick → IsSeen w1 state → IsSeen w state
  IsSeen-earlier w w1 state h (t, k, e) = (t, omega (arith, h, k), e)

  -- A container that runs, at an address.
  abbrev pub IsUp : World → ContainerState → Type 0
  IsUp w state = IsSeen w state × (state.status ≡ running) × (is_empty state.ip ≡ false)

  -- A conflict, since the container stopped or failed.
  abbrev pub IsDown : World → Err → Type 0
  IsDown w e =
      (e.kind ≡ ErrKind.conflict)
      × ((state : ContainerState) × IsSeen w state
          × ((state.status ≡ stopped) ⊎ (state.status ≡ error)))

  poll_ready :
      (w : World) (state : ContainerState) → (poll env id w).0 ≡ ok (some state) → IsUp w state
  unfolding poll
  poll_ready w state h = elim (Result-cases (env.inspect w.tick)) [
    | inl (said, e) ↦
        let same : said ≡ state = ground (arith, e, h) in
        let up : is_running state.status ≡ true = ground (arith, e, h) in
        ((w.tick, omega arith, rw (← same) e), running_is state.status up, ground (arith, e, h))
    | inr (x, e) ↦ absurd (ground (arith, e, h))
  ]

  poll_fails : (w : World) (e : Err) → (poll env id w).0 ≡ err e → IsDown w e
  unfolding poll
  poll_fails w x h = elim (Result-cases (env.inspect w.tick)) [
    | inl (said, e) ↦
        let down : has_ended said.status ≡ true = ground (arith, e, h) in
        (ground (arith, e, h), (said, (w.tick, omega arith, e), ended_is said.status down))
    | inr (y, e) ↦ absurd (ground (arith, e, h))
  ]

  -- How a wait that may poll so often ends.
  abbrev pub Ends : ℕ → World → Result Err ContainerState × World → Type 0
  Ends rounds w out =
      (n : ℕ) × (n ≤ suc rounds)
      × (out.1.log ≡ inspections n id w.log)
      × ((state : ContainerState) → out.0 ≡ ok state → IsUp w state)
      × ((e : Err) → out.0 ≡ err e → IsDown w e ⊎ ((e ≡ deadline_exceeded) × (n ≡ suc rounds)))

  IsUp-earlier :
      (w w1 : World) (state : ContainerState) → w.tick ≤ w1.tick → IsUp w1 state → IsUp w state
  IsUp-earlier w w1 state h (s, up, ip) = (IsSeen-earlier w w1 state h s, up, ip)

  one_more :
      (n rounds : ℕ) (e : Err) (w w1 : World)
      → w.tick ≤ w1.tick
      → IsDown w1 e ⊎ ((e ≡ deadline_exceeded) × (n ≡ suc rounds))
      → IsDown w e ⊎ ((e ≡ deadline_exceeded) × (suc n ≡ suc (suc rounds)))
  one_more n rounds e w w1 t (inl (c, (state, s, d))) =
      inl (c, (state, IsSeen-earlier w w1 state t s, d))
  one_more n rounds e w w1 t (inr (h, k)) = inr (h, ap suc k)

  -- A wait whose first poll answered `r`.
  Ends-of_poll :
      (r : Result Err (Option ContainerState)) (again : App Err ContainerState) (rounds : ℕ)
      (w w1 : World)
      → w1.log ≡ inspect_container id ∷ w.log
      → ((state : ContainerState) → r ≡ ok (some state) → IsUp w state)
      → ((e : Err) → r ≡ err e → IsDown w e)
      → Ends rounds w (again w1)
      → Ends rounds w
          (continue r (λ found. elim found [ none ↦ again | some state ↦ pure state ]) w1)
  Ends-of_poll (ok none) again rounds w w1 log ready bad later = later
  Ends-of_poll (ok (some state)) again rounds w w1 log ready bad later =
      (1, omega arith, log, λ found e. ready found (ground (arith, e)), λ x e. ground (arith, e))
  Ends-of_poll (err x) again rounds w w1 log ready bad later =
      (1, omega arith, log, λ found e. ground (arith, e), λ y e. inl (bad y (ground (arith, e))))

  -- The wait for a container ends after at most one inspection for each tick before the deadline and
  -- one at first. It ends well only with a state that an inspection of the wait gave, which is running and
  -- has an address; it fails with a conflict only where an inspection found the container stopped or
  -- in error, or else for the deadline, and then it has inspected that often.
  pub wait_ready-Ends : (rounds : ℕ) (w : World) → Ends rounds w (wait_ready env rounds id w)
  unfolding wait_ready
  wait_ready-Ends zero w =
      let w1 = (poll env id w).1 in
      Ends-of_poll (poll env id w).0 (fail deadline_exceeded) 0 w w1 (poll_log w) (poll_ready w)
        (poll_fails w)
        (
          1,
          omega arith,
          poll_log w,
          λ state e. ground (arith, e),
          λ e h. inr (ground (arith, h), refl),
        )
  wait_ready-Ends (suc rounds) w =
      let w1 = (poll env id w).1 in
      let (n, few, log, ready, bad) = wait_ready-Ends rounds w1 in
      Ends-of_poll (poll env id w).0 (wait_ready env rounds id) (suc rounds) w w1 (poll_log w)
        (poll_ready w) (poll_fails w)
        (
          suc n,
          omega arith,
          log ∙ ap (inspections n id) (poll_log w),
          λ state e. IsUp-earlier w w1 state (poll_tick w) (ready state e),
          λ e h. one_more n rounds e w w1 (poll_tick w) (bad e h),
        )
