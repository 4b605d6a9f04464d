-- ===== src/Ops/Health.antt =====
-- When the admin request for the health of the process is answered with 200.
use red_culture_service.Common.{
  ℕ, ◌≡◌, ◌↔◌, ◌≢◌, In, refl, inl, inr, ◌⊎◌, String, true, false, ◌&&◌, List, [], ◌∷◌, any_of, map,
  arith, ap, subst, Bool-cases, str_dec,
}
use red_culture_service.Common.Json.{JsonOps}
use red_culture_service.Http.Router.{normalize_method}
use red_culture_service.Ops.Types.{
  ServiceStatus, starting, running, draining, stopping, stopped, unhealthy, is_unhealthy,
  CheckOutcome, returned, thrown, ComponentHealth, HealthCheck, AdminRequest, OpsService,
}
use red_culture_service.Ops.Service.{
  component_of, own_health, all_healthy, collect_health_report, health_checks_snapshot,
}
use red_culture_service.Ops.Admin.{handle_request, health_response, json_response, text_response}

-- A check passes: it returns, and what it returns is healthy.
pub IsPassing : ℕ → HealthCheck → Type 0
IsPassing now check = (c : ComponentHealth) × (check now ≡ returned c) × (c.healthy ≡ true)

component_of-healthy :
    (now : ℕ) (check : HealthCheck) (outcome : CheckOutcome)
    → check now ≡ outcome
    → ((component_of now outcome).healthy ≡ true) ↔ IsPassing now check
unfolding component_of IsPassing
component_of-healthy now check (returned c) q = (
  λ h. (c, q, ground arith),
  λ (d, e, h). let same : c ≡ d = cc in ground (arith, ap (λ c. c.healthy) same),
)
component_of-healthy now check (thrown what) q = (λ h. cc, λ (d, e, h). cc)

abbrev components : ℕ → List (String × HealthCheck) → List ComponentHealth
components now checks = map (λ check. component_of now (check now)) (map (λ e. e.1) checks)

all_healthy-cons :
    (c : ComponentHealth) (cs : List ComponentHealth)
    → all_healthy (c ∷ cs) ≡ c.healthy && all_healthy cs
unfolding any_of
all_healthy-cons c cs = ground arith

IsPassing-iff :
    (now : ℕ) (checks : List (String × HealthCheck))
    → (all_healthy (components now checks) ≡ true)
      ↔ ((e : String × HealthCheck) → In e checks → IsPassing now e.1)
unfolding any_of
IsPassing-iff now [] = (λ h e i. absurd i, λ h. refl)
IsPassing-iff now (f ∷ checks) =
    let (there, back) = IsPassing-iff now checks in
    let (to, from) = component_of-healthy now f.1 (f.1 now) refl in
    let split = all_healthy-cons (component_of now (f.1 now)) (components now checks) in
    (
      λ h e i. elim i [
        | inl q ↦ subst (λ e. IsPassing now e.1) q (to (ground arith))
        | inr later ↦ there (ground arith) e later
      ],
      λ h.
          let first = from (h f (inl refl)) in let rest = back (λ e i. h e (inr i)) in ground arith,
    )

is_unhealthy_lem : (status : ServiceStatus) → (is_unhealthy status ≡ false) ↔ (status ≢ unhealthy)
is_unhealthy_lem starting = (λ h q. cc, λ h. refl)
is_unhealthy_lem running = (λ h q. cc, λ h. refl)
is_unhealthy_lem draining = (λ h q. cc, λ h. refl)
is_unhealthy_lem stopping = (λ h q. cc, λ h. refl)
is_unhealthy_lem stopped = (λ h q. cc, λ h. refl)
is_unhealthy_lem unhealthy = (λ h q. cc, λ h. absurd (h refl))

module _ {Callback : Type 0} where
  report_iff :
      (s : OpsService Callback) (now : ℕ)
      → ((collect_health_report s now).healthy ≡ true)
        ↔ (s.status ≢ unhealthy)
          × ((e : String × HealthCheck) → In e s.health_checks → IsPassing now e.1)
  unfolding collect_health_report health_checks_snapshot own_health
  report_iff s now =
      let (to, from) = is_unhealthy_lem s.status in
      let (there, back) = IsPassing-iff now s.health_checks in
      elim (Bool-cases (is_unhealthy s.status)) [
        | inl bad ↦ (
          λ h. absurd (let never : false ≡ true = rw bad at h in cc),
          λ (ok, _). absurd (let never = from ok in cc),
        )
        | inr good ↦ (λ h. (to good, there (rw good at h)), λ (ok, passing). rw good (back passing))
      ]

  -- A GET request for /health, the case of the method's letters aside, is answered with 200 or with
  -- 503; with 200 exactly when the service is not marked unhealthy and every registered check
  -- returns, and returns that its component is healthy.
  pub handle_health_iff :
      (W : JsonOps) (s : OpsService Callback) (request : AdminRequest) (now : ℕ)
      → normalize_method request.method ≡ "GET"
      → request.path ≡ "/health"
      → let response = (handle_request W s request now).response in
        ((response.status_code ≡ 200)
          ↔ (s.status ≢ unhealthy)
            × ((e : String × HealthCheck) → In e s.health_checks → IsPassing now e.1))
        × ((response.status_code ≡ 200) ⊎ (response.status_code ≡ 503))
  unfolding handle_request health_response json_response text_response str_dec
  handle_health_iff W s request now get health =
      let (to, from) = report_iff s now in
      elim (Bool-cases (collect_health_report s now).healthy) [
        | inl ok ↦ rw (get, health, ok) ((λ h. to ok, λ h. refl), inl refl)
        | inr bad ↦
            rw (get, health, bad)
              ((λ h. absurd (omega (arith, h)), λ h. absurd (let never = from h in cc)), inr refl)
      ]
