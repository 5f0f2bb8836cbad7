-- ===== src/HttpRoutes/Survival.antt =====
-- Which Services stay when `deleteHttpRoute` of console/app/httproutes/httproutes.server.ts runs.
use kmc.Common.{
  ◌≡◌, ◌≢◌, ◌⊎◌, arith, codes, lookup, refl, sym, ap, subst, ◌∙◌, false, Bool-cases, inl, inr,
  Option, none, some, Result, ok, err, Text, text_eq, text_eq_refl, text_eq_sound,
}
use kmc.Errors.{ErrorValue}
use kmc.HttpRoutes.Lifecycle.{Service, RouteApi}
use kmc.HttpRoutes.Mappings.{is_text}
use kmc.HttpRoutes.Deletion.{
  is_companion, has_route_label, service_optional, service_to_delete, forgiven, delete_companion,
  after_route, delete_http_route,
}

-- The deletion of a route touches no Service, and the deletion of a Service no other.
pub record KeepsServices {S : Type 0} (api : RouteApi S) : Type 0 where
  pub by_route :
      (name other : Text) (s : S)
      → api.read_service other (api.delete_route name s).1 ≡ api.read_service other s
  pub by_backend :
      (name other : Text) (s : S)
      → other ≢ name
      → api.read_service other (api.delete_backend name s).1 ≡ api.read_service other s

-- The Service is not the companion that goes with the route `name`: it is no backend of the console,
-- or it has not the route's label and either another name or the type of a load balancer.
abbrev pub IsForeign : Text → Text → Service → Type 0
IsForeign name m svc =
    (lookup (codes "kmc.ianunruh.com/resource") svc.labels ≢ some (codes "backend"))
    ⊎ ((lookup (codes "kmc.ianunruh.com/httproute") svc.labels ≢ some name)
        × ((m ≢ name) ⊎ (svc.type ≡ some (codes "LoadBalancer"))))

is_text-other : (t : Text) (o : Option Text) → o ≢ some t → is_text t o ≡ false
unfolding is_text
is_text-other t none h = refl
is_text-other t (some s) h = elim (Bool-cases (text_eq s t)) [
  | inl same ↦ absurd (h (ap some (text_eq_sound s t same)))
  | inr other ↦ other
]

text_eq-other : (a b : Text) → a ≢ b → text_eq a b ≡ false
text_eq-other a b h = elim (Bool-cases (text_eq a b)) [
  | inl same ↦ absurd (h (text_eq_sound a b same))
  | inr other ↦ other
]

is_companion-IsForeign :
    (name m : Text) (svc : Service) → IsForeign name m svc → is_companion name m svc ≡ false
unfolding is_companion has_route_label text_eq
is_companion-IsForeign name m svc (inl h) = rw (is_text-other _ _ h) refl
is_companion-IsForeign name m svc (inr (h, inl ne)) =
    rw (is_text-other _ _ h, text_eq-other m name ne) (ground arith)
is_companion-IsForeign name m svc (inr (h, inr lb)) = rw (is_text-other _ _ h, lb) (ground arith)

forgiven-state :
    {S : Type 0} (wrapped : ErrorValue → ErrorValue) (r : Result ErrorValue (Unit {0}) × S)
    → (forgiven wrapped r).1 ≡ r.1
unfolding forgiven
forgiven-state wrapped (ok _, s) = refl
forgiven-state wrapped (err e, s) = refl

module _ {S : Type 0} (api : RouteApi S) (laws : KeepsServices api) (name m : Text) (svc : Service)
    (foreign : IsForeign name m svc) where
  abbrev Stays : S → Type 0
  Stays s = api.read_service m s ≡ ok svc

  delete_companion-ne :
      (n : Text) (r : Result ErrorValue (Option Service)) (s : S)
      → m ≢ n
      → Stays s
      → Stays (delete_companion api name n r s).1
  unfolding delete_companion
  delete_companion-ne n (err e) s differ h = h
  delete_companion-ne n (ok none) s differ h = h
  delete_companion-ne n (ok (some found)) s differ h =
      elim (Bool-cases (is_companion name n found))
        as (λ _. Stays (delete_companion api name n (ok (some found)) s).1) [
          | inl q ↦
              rw (q, delete_companion)
                (ap (api.read_service m) (forgiven-state _ (api.delete_backend n s))
                  ∙ laws.by_backend n m s differ
                  ∙ h)
          | inr q ↦ rw (q, delete_companion) h
        ]

  delete_companion_own :
      (s : S)
      → Stays s
      → Stays (delete_companion api name m (service_optional (api.read_service m s)) s).1
  unfolding delete_companion service_optional
  delete_companion_own s h =
      subst (λ r. Stays (delete_companion api name m (service_optional r) s).1) (sym h)
        (rw (is_companion-IsForeign name m svc foreign, delete_companion) h)

  after_route-Stays :
      (n : Text) (r : Result ErrorValue (Unit {0}) × S)
      → Stays r.1
      → Stays (after_route api name n r).1
  unfolding after_route
  after_route-Stays n (err e, s) h = h
  after_route-Stays n (ok _, s) h = elim (Bool-cases (text_eq m n)) [
    | inl same ↦
        subst
          (λ k. Stays (delete_companion api name k (service_optional (api.read_service k s)) s).1)
          (text_eq_sound m n same) (delete_companion_own s h)
    | inr differ ↦
        delete_companion-ne n (service_optional (api.read_service n s)) s
          (λ e. cc (e, differ, text_eq_refl m)) h
  ]

  -- A Service that is no backend of the console, or that has not the route's label and either
  -- another name than the route or the type of a load balancer, is there as before when the route
  -- was deleted.
  pub delete_http_route-Stays :
      (s : S)
      → api.read_service m s ≡ ok svc
      → api.read_service m (delete_http_route api name s).1 ≡ ok svc
  unfolding delete_http_route
  delete_http_route-Stays s h =
      after_route-Stays (service_to_delete name (api.read_route name s)) _ (
        ap (api.read_service m) (forgiven-state _ (api.delete_route name s))
        ∙ laws.by_route name m s
        ∙ h)
