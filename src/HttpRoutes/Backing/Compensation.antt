-- ===== src/HttpRoutes/Backing/Compensation.antt =====
-- What a failed `createHttpRoute` of console/app/httproutes/httproutes.server.ts leaves of the
-- Services, with `createBackend` and `deleteBackend` of console/app/backends/backends.server.ts.
use kmc.Common.{◌≡◌, Option, ok, err, to_option, Text, Labels}
use kmc.Errors.{ErrorValue}
use kmc.Backends.Services.{KubeService}
use kmc.Backends.Services.Changes.{BackendApi}
use kmc.Backends.Services.Changes.Endings.{KeepsApart}
use kmc.HttpRoutes.Objects.{KubeHttpRoute}
use kmc.HttpRoutes.Backing.{GatewayApi, IsSeparate}

module _ {S : Type 0} (api : BackendApi S) (stringify : Labels → Text)
    (parse_object : Text → Option Labels) (gateway : GatewayApi S) where
  -- What the cluster does with Services: the creation of a route touches none, they are apart from
  -- machines and from each other, a refused creation creates none, and one whose deletion was
  -- accepted cannot be read.
  pub record IsKubernetes : Type 0 where
    pub separate : IsSeparate api stringify parse_object gateway
    pub apart : KeepsApart api
    pub by_creation :
        (body : KubeHttpRoute) (m : Text) (s : S)
        → api.read_service m (gateway.create_route body s).1 ≡ api.read_service m s
    pub deleted :
        (n : Text) (s : S)
        → (api.delete_service n s).0 ≡ ok tt
        → (e : ErrorValue) × (api.read_service n (api.delete_service n s).1 ≡ err e)

  -- The Service of that name, or none.
  abbrev pub service_at : Text → S → Option KubeService
  service_at m s = to_option (api.read_service m s)

  -- The cluster answers the deletion of the Service `m` with an error.
  abbrev pub Refuses : Text → Text → S → Type 0
  Refuses m n s = (m ≡ n) × (e : ErrorValue) × ((api.delete_service n s).0 ≡ err e)
