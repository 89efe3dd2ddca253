-- ===== src/Task/Builds/Laws.antt =====
-- What a report of a build leaves, and whom it tells.
use text.Mathlib.Text.{◌==◌ as text_eq}
use text.Mathlib.TextPositions.{eq_refl}
use mathlib.Core.Path.{subst}
use text.Mathlib.TextEquality.{eq_iff}
use boreas.Prelude.{
  ap, Bool, String, ◌≡◌, ◌≢◌, ◌⊎◌, refl, inl, inr, true, false, arith, ◌==◌, ◌∷◌, change,
  Bool-cases, if◌then◌else◌,
}
use boreas.Prelude.Int.{or_int}
use boreas.Core.Enums.{BuildState, build_failed}
use boreas.Prelude.Text.{is_empty, or_text}
use boreas.Core.Errors.{Err, Result, ok, err}
use boreas.Core.Model.{Task, Project, Build, Time, Notification}
use boreas.Store
use boreas.Project.Notices.{notification}
use boreas.App.{Env, World, tell}
use boreas.Task.Builds.{
  failure_detail, record_build, is_running_build, continued, is_new_failure, is_failure,
}

-- A report of a build that runs says all; one that ends it says what it may leave out.
abbrev pub said_of {ℓ} : {A : Type ℓ} → BuildState → A → A → A
said_of BuildState.running said kept = said
said_of _ said kept = kept

-- The report as the row holds it, of the report before it.
abbrev pub kept_report : Build → Build → Time → Build
kept_report previous build now = record {
  state = build.state;
  stage = said_of build.state build.stage (or_text build.stage previous.stage);
  progress = said_of build.state build.progress (or_int build.progress previous.progress);
  url = said_of build.state build.url (or_text build.url previous.url);
  at = now;
}

-- A failure after a report of anything else, or of another run.
abbrev pub IsNews : Build → Build → Type 0
IsNews previous report =
    (report.state ≡ BuildState.failure)
    × ((previous.state ≢ BuildState.failure) ⊎ (report.url ≢ previous.url))

said_of-if :
    {A : Type 0} (s : BuildState) (said kept : A)
    → (if is_running_build s then said else kept) ≡ said_of s said kept
said_of-if BuildState.running said kept = refl
said_of-if BuildState.none said kept = refl
said_of-if BuildState.success said kept = refl
said_of-if BuildState.failure said kept = refl
said_of-if BuildState.canceled said kept = refl
said_of-if (BuildState.unnamed s) said kept = refl

abbrev ended : (previous build : Build) → Build
ended previous build = record build {
  stage = or_text build.stage previous.stage;
  progress = or_int build.progress previous.progress;
  url = or_text build.url previous.url;
}

continued_by :
    (runs : Bool) (previous build : Build) (now : Time)
    → record (if runs then build else ended previous build) { at = now } ≡ record {
      state = build.state;
      stage = if runs then build.stage else or_text build.stage previous.stage;
      progress = if runs then build.progress else or_int build.progress previous.progress;
      url = if runs then build.url else or_text build.url previous.url;
      at = now;
    }
continued_by true previous build now = refl
continued_by false previous build now = refl

continued-kept_report :
    (previous build : Build) (now : Time)
    → record (continued previous build) { at = now } ≡ kept_report previous build now
unfolding continued
continued-kept_report previous build now =
    rw
      (
        ← said_of-if build.state build.stage (or_text build.stage previous.stage),
        ← said_of-if build.state build.progress (or_int build.progress previous.progress),
        ← said_of-if build.state build.url (or_text build.url previous.url),
      )
      (continued_by (is_running_build build.state) previous build now)

failure_state : (s : BuildState) → is_failure s ≡ true → s ≡ BuildState.failure
failure_state BuildState.failure h = refl
failure_state BuildState.none h = cc
failure_state BuildState.running h = cc
failure_state BuildState.success h = cc
failure_state BuildState.canceled h = cc
failure_state (BuildState.unnamed s) h = cc

IsNews-of :
    (previous report : Build) → is_new_failure previous report ≡ true → IsNews previous report
unfolding is_new_failure
IsNews-of previous report h = (
  failure_state report.state (ground arith),
  elim (Bool-cases (is_failure previous.state)) [
    | inl e ↦ inr λ q.
        let same : text_eq report.url previous.url ≡ true = (eq_iff report.url previous.url).1 q in
        ground (arith, e, same, h)
    | inr e ↦ inl λ q. absurd (cc (e, ap is_failure q))
  ],
)

not-IsNews-of :
    (previous report : Build) → is_new_failure previous report ≡ false → IsNews previous report → ⊥
unfolding is_new_failure
not-IsNews-of previous report h (f, inl p) = elim (Bool-cases (is_failure previous.state)) [
  | inl e ↦ p (failure_state previous.state e)
  | inr e ↦ absurd (ground (arith, e, h, ap is_failure f))
]
not-IsNews-of previous report h (f, inr u) = elim (Bool-cases (text_eq report.url previous.url)) [
  | inl e ↦ u ((eq_iff report.url previous.url).0 e)
  | inr e ↦ absurd (ground (arith, e, h, ap is_failure f))
]

module _ (env : Env) (name : String) (build : Build) (task : Task) (project : Project)
    (w : World) where
  -- The report is the build of the task's row, and users were told of it once, if it is news.
  abbrev pub IsStoredAs : Build → World → Type 0
  IsStoredAs report after =
      (after.db ≡ record w.db {
        tasks = change (λ t. t.id == task.id) (λ t. record t { build = report }) w.db.tasks;
      })
      × (((¬ IsNews task.build report) × (after.log ≡ w.log))
          ⊎ (IsNews task.build report × ((n : Notification) × (after.log ≡ tell n ∷ w.log))))

  abbrev pub IsReported : Result Err (Unit {0}) → World → Type 0
  IsReported (ok u) after = IsStoredAs (kept_report task.build build (env.now w.tick)) after
  IsReported (err e) after = (after.db ≡ w.db) × (after.log ≡ w.log)

  -- Whatever the database answers: a report that is recorded changes the build of the task's row, to
  -- the report with the clock's time and, where the build has ended, with the stage, the progress and
  -- the address of the report before it where this one does not say them; no other table and column
  -- changes, and users are told once if it is a failure that follows anything but a failure, or of another
  -- address, and not told otherwise. A report that is not recorded changes no table and tells nobody.
  pub record_build-effect :
      (answer : Result Err (Unit {0}))
      → (record_build env name build task project w).0 ≡ answer
      → IsReported answer (record_build env name build task project w).1
  unfolding record_build notification Store.Tasks.set_build
  record_build-effect (ok u) h =
      let report : Build = record (continued task.build build) { at = env.now w.tick } in
      subst (λ r. IsStoredAs r (record_build env name build task project w).1)
        (continued-kept_report task.build build (env.now w.tick))
        (
          ground arith,
          elim (Bool-cases (is_new_failure task.build report)) [
            | inl e ↦
                let n =
                  notification project name build_failed "🔨 Build Failed" (failure_detail report) in
                inr (IsNews-of task.build report e, (n, ground (arith, e)))
            | inr e ↦ inl (not-IsNews-of task.build report e, ground (arith, e))
          ],
        )
  record_build-effect (err e) h = (ground arith, ground arith)

new_failure-same :
    (a b : Build)
    → is_failure a.state ≡ true
    → text_eq b.url a.url ≡ true
    → is_new_failure a b ≡ false
unfolding is_new_failure
new_failure-same a b h e = ground (arith, h, e)

continued-state : (a b : Build) → (continued a b).state ≡ b.state
unfolding continued
continued-state a b = ground arith

continued-url :
    (a b : Build) → is_failure b.state ≡ true → (continued a b).url ≡ or_text b.url a.url
unfolding continued
continued-url a b h = ground arith

-- The same failed report twice tells users once: after a recorded failure, the same report is no
-- new failure, whatever was recorded before it and whenever it came.
pub is_new_failure-repeated :
    (before again : Build) (at : Time)
    → is_failure again.state ≡ true
    → is_new_failure
        (record (continued before again) { at = at })
        (continued (record (continued before again) { at = at }) again)
      ≡ false
is_new_failure-repeated before again at h =
    let first : Build = record (continued before again) { at = at } in
    let url1 : first.url ≡ or_text again.url before.url = continued-url before again h in
    let url2 : (continued first again).url ≡ or_text again.url first.url =
      continued-url first again h in
    new_failure-same first (continued first again) (rw (continued-state before again) h)
      (elim (Bool-cases (is_empty again.url)) [
        | inl e ↦
            let same : (continued first again).url ≡ first.url = ground (arith, e, url2) in
            rw same (eq_refl first.url)
        | inr e ↦
            let same : (continued first again).url ≡ first.url = ground (arith, e, url1, url2) in
            rw same (eq_refl first.url)
      ])
