-- ===== src/Router/Serve/Admission.antt =====
-- Who may have what, over all routes of src/router.rs.
use cron_manager.Base.{
  ◌≡◌, refl, ◌⊎◌, inl, inr, Bool, true, false, not, Option, some, List, [], ◌∷◌, if◌then◌else◌, All,
  All-append,
}
use cron_manager.Base.Int.{ℤ}
use cron_manager.Base.Results.{Result, ok, err}
use cron_manager.Base.Text.{Text}
use cron_manager.Config.{SecurityConfig}
use cron_manager.Dsl.Loader.Raw.{External}
use cron_manager.EnvSafety.{Environment}
use cron_manager.Error.{CronManagerError}
use cron_manager.Router.Auth.{admin_gate}
use cron_manager.Router.Serve
use cron_manager.Router.Serve.{
  Handler, jobs_all, jobs_group, running_all, running_group, index, health, info, Route,
  jobs_routes, running_routes, gated_routes, public_routes, build, Request, Answer, failure, Served,
  handle, past_gate, serve,
}
use cron_manager.Router.State.{AppState}

-- What a handler shows without a token.
abbrev pub IsOpen : SecurityConfig → Handler → Type 0
IsOpen sec index = Unit
IsOpen sec health = Unit
IsOpen sec info = Unit
IsOpen sec jobs_all = sec.expose_jobs_publicly ≡ true
IsOpen sec jobs_group = sec.expose_jobs_publicly ≡ true
IsOpen sec running_all = sec.expose_running_publicly ≡ true
IsOpen sec running_group = sec.expose_running_publicly ≡ true
IsOpen sec Serve.execute_job = ⊥
IsOpen sec Serve.stop_job = ⊥
IsOpen sec Serve.reload_jobs = ⊥

abbrev pub IsGuarded : SecurityConfig → Route → Type 0
IsGuarded sec r = (r.is_gated ≡ true) ⊎ ((r.is_gated ≡ false) × IsOpen sec r.handler)

jobs-IsGuarded :
    (sec : SecurityConfig)
    → sec.expose_jobs_publicly ≡ true
    → All (IsGuarded sec) (jobs_routes false)
jobs-IsGuarded sec h = (inr (refl, h), (inr (refl, h), (inr (refl, h), tt)))

running-IsGuarded :
    (sec : SecurityConfig)
    → sec.expose_running_publicly ≡ true
    → All (IsGuarded sec) (running_routes false)
running-IsGuarded sec h = (inr (refl, h), (inr (refl, h), (inr (refl, h), tt)))

optional :
    (sec : SecurityConfig) (b : Bool) (shown hidden : List Route)
    → (b ≡ true → All (IsGuarded sec) shown)
    → All (IsGuarded sec) hidden
    → All (IsGuarded sec) (if b then shown else hidden)
optional sec true shown hidden hy hn = hy refl
optional sec false shown hidden hy hn = hn

gated_routes-IsGuarded : (sec : SecurityConfig) → All (IsGuarded sec) (gated_routes sec)
gated_routes-IsGuarded sec = (
  inl refl,
  (
    inl refl,
    (
      inl refl,
      All-append (IsGuarded sec) (if not sec.expose_jobs_publicly then jobs_routes true else []) _
          (optional sec (not sec.expose_jobs_publicly) (jobs_routes true) []
            (λ h. (inl refl, (inl refl, (inl refl, tt)))) tt)
          (optional sec (not sec.expose_running_publicly) (running_routes true) []
            (λ h. (inl refl, (inl refl, (inl refl, tt)))) tt),
    ),
  ),
)

public_routes-IsGuarded : (sec : SecurityConfig) → All (IsGuarded sec) (public_routes sec)
public_routes-IsGuarded sec = (
  inr (refl, tt),
  (
    inr (refl, tt),
    (
      inr (refl, tt),
      (
        inr (refl, tt),
        (
          inr (refl, tt),
          All-append (IsGuarded sec) (if sec.expose_jobs_publicly then jobs_routes false else []) _
              (optional sec sec.expose_jobs_publicly (jobs_routes false) [] (jobs-IsGuarded sec) tt)
              (optional sec sec.expose_running_publicly (running_routes false) []
                (running-IsGuarded sec) tt),
        ),
      ),
    ),
  ),
)

build-IsGuarded : (sec : SecurityConfig) → All (IsGuarded sec) (build sec)
unfolding build
build-IsGuarded sec =
    All-append (IsGuarded sec) (public_routes sec) (gated_routes sec) (public_routes-IsGuarded sec)
      (gated_routes-IsGuarded sec)

module _ (next_fire : Text → ℤ → Option ℤ) (x : External) (e : Environment) (r : Request)
    (st : AppState) where
  -- What a request to a route may get.
  abbrev pub Outcome : Route → Type 0
  Outcome to =
      ((admin_gate st.tokens r.authorization r.path ≡ ok tt)
        × (serve next_fire x e r st to ≡ handle next_fire x e r st to.handler))
      ⊎ (((error : CronManagerError) × (admin_gate st.tokens r.authorization r.path ≡ err error)
            × (serve next_fire x e r st to ≡ some (failure error, st)))
          ⊎ (IsOpen st.cfg.security to.handler
              × ((answer : Answer) × (serve next_fire x e r st to ≡ some (answer, st)))))

  open_handler :
      (h : Handler)
      → IsOpen st.cfg.security h
      → (answer : Answer) × (handle next_fire x e r st h ≡ some (answer, st))
  unfolding handle
  open_handler jobs_all o = (_, refl)
  open_handler jobs_group o = (_, refl)
  open_handler running_all o = (_, refl)
  open_handler running_group o = (_, refl)
  open_handler index o = (_, refl)
  open_handler health o = (_, refl)
  open_handler info o = (_, refl)
  open_handler Serve.execute_job o = absurd o
  open_handler Serve.stop_job o = absurd o
  open_handler Serve.reload_jobs o = absurd o

  gated-Outcome :
      (to : Route) (verdict : Result {0, 0} Unit CronManagerError)
      → admin_gate st.tokens r.authorization r.path ≡ verdict
      → to.is_gated ≡ true
      → Outcome to
  unfolding serve
  gated-Outcome to (ok _) h gated = inl (h, rw (gated, h) refl)
  gated-Outcome to (err error) h gated = inr (inl (error, h, rw (gated, h) refl))

  guarded-Outcome : (to : Route) → IsGuarded st.cfg.security to → Outcome to
  unfolding serve
  guarded-Outcome to (inl gated) =
      gated-Outcome to (admin_gate st.tokens r.authorization r.path) refl gated
  guarded-Outcome to (inr (public, is_open)) =
      let (answer, shown) = open_handler to.handler is_open in
      inr (inr (is_open, (answer, rw public shown)))

  routes-Outcome :
      (routes : List Route) → All (IsGuarded st.cfg.security) routes → All Outcome routes
  routes-Outcome [] h = tt
  routes-Outcome (to ∷ routes) (ht, hs) = (guarded-Outcome to ht, routes-Outcome routes hs)

  -- A request to any route of the router, in any state: either the gate admits it and it gets what
  -- the route's handler does; or the gate refuses it, and its answer is the gate's error and nothing
  -- has changed; or the route is open, and the request changes nothing. Open are the pages that show
  -- no job, and `/jobs` and `/running` where the configuration exposes them; so to fire, to stop and
  -- to reload always takes the gate.
  pub serve-admission : All Outcome (build st.cfg.security)
  serve-admission = routes-Outcome (build st.cfg.security) (build-IsGuarded st.cfg.security)
