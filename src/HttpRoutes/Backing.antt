-- ===== src/HttpRoutes/Backing.antt =====
-- The backends of console/app/backends/backends.server.ts as the companion calls of
-- console/app/httproutes/httproutes.server.ts.
pub mod Compensation
use kmc.Common.{
  ℕ, ◌≡◌, ◌≢◌, refl, ap, ◌∙◌, inl, inr, Option, none, some, List, [], ◌∷◌, or_else, Result, ok, err,
  Result-cases, Text, codes, Labels,
}
use kmc.Errors.{ErrorValue}
use kmc.Backends.Membership.{ReadMembership, single_vm, labels, group, known, unknown}
use kmc.Backends.Stamp.{KubeVm}
use kmc.Backends.Stamp.Untouched.{unstamp_backend_group-Survives}
use kmc.Backends.Services.{
  KubeService, BackendPort, BackendSummary, CreateBackendRequest, TargetPort, ServicePort, number,
  port_name, tcp,
}
use kmc.Backends.Services.Changes.{BackendApi, create_backend, optional}
use kmc.Backends.Services.Deletion.{
  delete_backend, clear_members, unstamp_some, next_step, service_deleted, membership_or,
}
use kmc.Backends.Services.Updates.{UpdateBackendRequest, update_backend}
use kmc.HttpRoutes.Objects.{KubeHttpRoute, KubeGateway}
use kmc.HttpRoutes.Lifecycle.{Service, CompanionRequest, CompanionUpdate, RouteApi}
use kmc.HttpRoutes.Survival.{KeepsServices}

-- The calls of the Gateway API.
pub record GatewayApi (S : Type 0) : Type 0 where
  pub read_route : Text → S → Result ErrorValue KubeHttpRoute
  pub create_route : KubeHttpRoute → S → Result ErrorValue KubeHttpRoute × S
  pub replace_route : Text → KubeHttpRoute → S → Result ErrorValue (Unit {0}) × S
  pub delete_route : Text → S → Result ErrorValue (Unit {0}) × S
  pub list_gateways : S → Result ErrorValue (List KubeGateway)

abbrev numeric : Option TargetPort → Option ℕ
numeric none = none
numeric (some (number n)) = some n
numeric (some (port_name s)) = none

abbrev first_target : List ServicePort → Option ℕ
first_target [] = none
first_target (p ∷ ps) = numeric p.target_port

-- What the routes read of a Service.
unfoldable pub service_view : Result ErrorValue KubeService → Result ErrorValue Service
service_view (err e) = err e
service_view (ok svc) = ok (record {
  labels = or_else svc.labels [];
  type = svc.type;
  target_port = first_target svc.ports;
})

abbrev http_port : ℕ → ℕ → BackendPort
http_port port target = record {
  name = some (codes "http");
  port = port;
  target_port = target;
  protocol = some tcp;
}

-- The argument of `createBackend`.
unfoldable pub backend_request : Text → Text → CompanionRequest → CreateBackendRequest
backend_request cluster namespace c = record {
  cluster = cluster;
  namespace = namespace;
  name = c.name;
  membership = c.membership;
  ports = http_port c.port c.target_port ∷ [];
  service_type = some (codes "ClusterIP");
  extra_labels = c.extra_labels;
  extra_annotations = [];
}

abbrev ports_of : Option (ℕ × ℕ) → Option (List BackendPort)
ports_of none = none
ports_of (some (port, target)) = some (http_port port target ∷ [])

-- The argument of `updateBackend`.
unfoldable pub backend_update : Text → Text → CompanionUpdate → UpdateBackendRequest
backend_update cluster namespace c = record {
  cluster = cluster;
  namespace = namespace;
  name = c.name;
  membership = c.membership;
  ports = ports_of c.ports;
}

abbrev forget :
    {S : Type 0} → Result ErrorValue BackendSummary × S → Result ErrorValue (Unit {0}) × S
forget (ok summary, s) = (ok tt, s)
forget (err e, s) = (err e, s)

module _ {S : Type 0} (api : BackendApi S) (stringify : Labels → Text)
    (parse_object : Text → Option Labels) where
  abbrev pub route_api : GatewayApi S → Text → Text → RouteApi S
  route_api gateway cluster namespace = record {
    read_route = gateway.read_route;
    create_route = gateway.create_route;
    replace_route = gateway.replace_route;
    delete_route = gateway.delete_route;
    list_gateways = gateway.list_gateways;
    read_service = λ n s. service_view (api.read_service n s);
    create_backend = λ c s.
        forget (create_backend api stringify parse_object (backend_request cluster namespace c) s);
    update_backend =
        λ c s. update_backend api stringify parse_object (backend_update cluster namespace c) s;
    delete_backend = λ n s. delete_backend api stringify parse_object n s;
  }

  -- The deletion of a route and the writes of a machine touch no Service, and the deletion of a
  -- Service no other.
  pub record IsSeparate (gateway : GatewayApi S) : Type 0 where
    pub by_route :
        (name m : Text) (s : S)
        → api.read_service m (gateway.delete_route name s).1 ≡ api.read_service m s
    pub by_vm :
        (n m : Text) (vm : KubeVm) (s : S)
        → api.read_service m (api.vms.replace_vm n vm s).1 ≡ api.read_service m s
    pub by_service :
        (n m : Text) (s : S)
        → m ≢ n
        → api.read_service m (api.delete_service n s).1 ≡ api.read_service m s

  module _ (gateway : GatewayApi S) (laws : IsSeparate gateway) (m : Text)
      (svc : Result ErrorValue KubeService) where
    abbrev Reads : S → Type 0
    Reads s = api.read_service m s ≡ svc

    unstamp_some-Reads : (names : List Text) (s : S) → Reads s → Reads (unstamp_some api names s).1
    unfolding unstamp_some
    unstamp_some-Reads [] s h = h
    unstamp_some-Reads (n ∷ names) s h =
        unstamp_backend_group-Survives api.vms Reads (λ k vm t g. laws.by_vm k m vm t ∙ g)
          (n ∷ names) s h

    clear_members-Reads :
        (membership : ReadMembership) (s : S)
        → Reads s
        → Reads (clear_members api stringify parse_object membership s).1
    unfolding clear_members
    clear_members-Reads unknown s h = h
    clear_members-Reads (known (single_vm vm)) s h = h
    clear_members-Reads (known (labels ls)) s h = h
    clear_members-Reads (known (group id names)) s h = unstamp_some-Reads _ s h

    service_deleted-Reads :
        (r : Result ErrorValue (Unit {0}) × S)
        → Reads r.1
        → Reads (service_deleted api stringify parse_object r).1
    unfolding service_deleted
    service_deleted-Reads (ok _, s) h = h
    service_deleted-Reads (err e, s) h = h

    next_step-Reads :
        (r : Result ErrorValue (Unit {0}) × S) (f : S → Result ErrorValue (Unit {0}) × S)
        → Reads r.1
        → ((t : S) → Reads t → Reads (f t).1)
        → Reads (next_step r f).1
    next_step-Reads (ok _, s) f h keeps = keeps s h
    next_step-Reads (err e, s) f h keeps = h

    delete_found-Reads :
        (n : Text) (found : Option KubeService) (s : S)
        → Reads (api.delete_service n s).1
        → Reads
            (next_step (service_deleted api stringify parse_object (api.delete_service n s)) (
              clear_members api stringify parse_object
                (membership_or api stringify parse_object found))).1
    delete_found-Reads n found s h =
        next_step-Reads (service_deleted api stringify parse_object (api.delete_service n s))
          (clear_members api stringify parse_object
            (membership_or api stringify parse_object found))
          (service_deleted-Reads (api.delete_service n s) h)
          (clear_members-Reads (membership_or api stringify parse_object found))

    delete_backend-Reads :
        (n : Text) (s : S)
        → m ≢ n
        → Reads s
        → Reads (delete_backend api stringify parse_object n s).1
    unfolding delete_backend
    delete_backend-Reads n s differ h = elim (Result-cases (optional (api.read_service n s))) [
      | inl (found, q) ↦
          rw (q, delete_backend) (delete_found-Reads n found s (laws.by_service n m s differ ∙ h))
      | inr (e, q) ↦ rw (q, delete_backend) h
    ]

  pub route_api-KeepsServices :
      (gateway : GatewayApi S) (cluster namespace : Text)
      → IsSeparate gateway
      → KeepsServices (route_api gateway cluster namespace)
  route_api-KeepsServices gateway cluster namespace laws = record {
    by_route = λ name m s. ap service_view (laws.by_route name m s);
    by_backend = λ n m s differ.
        ap service_view
          (delete_backend-Reads gateway laws m (api.read_service m s) n s differ refl);
  }
