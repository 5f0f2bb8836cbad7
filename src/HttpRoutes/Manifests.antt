-- ===== src/HttpRoutes/Manifests.antt =====
-- The manifests of console/app/httproutes/template.server.ts.
use kmc.Common.{ℕ, Option, none, some, [], ◌∷◌, or_else, Text, codes, trim, trimmed, Labels, spread}
use kmc.Backends.Membership.{BackendMembership, membership_labels}
use kmc.HttpRoutes.Objects.{KubeHttpRoute}

pub record CreateHttpRouteRequest : Type 0 where
  pub cluster : Text
  pub namespace : Text
  pub name : Text
  pub membership : Option BackendMembership
  pub host : Text
  pub path : Option Text
  pub path_type : Option Text
  pub service_port : Option ℕ
  pub target_port : Option ℕ
  pub gateway_name : Text
  pub gateway_namespace : Option Text
  pub section_name : Option Text
  pub existing_service_name : Option Text
  pub extra_labels : Labels

abbrev member_labels : Option BackendMembership → Labels
member_labels none = []
member_labels (some m) = membership_labels m

unfoldable pub ownership_labels : Text → Option BackendMembership → Labels
unfolding membership_labels spread
ownership_labels name membership =
    spread
      ((codes "app.kubernetes.io/managed-by", codes "kmc")
        ∷ (codes "kmc.ianunruh.com/resource", codes "httproute")
        ∷ (codes "kmc.ianunruh.com/httproute", name)
        ∷ [])
      (member_labels membership)

-- `a?.trim() || b?.trim() || c`
abbrev pub service_of : Option Text → Option Text → Text → Text
service_of given existing name = or_else (trimmed given) (or_else (trimmed existing) name)

unfoldable pub build_http_route_manifest : CreateHttpRouteRequest → Option Text → KubeHttpRoute
unfolding ownership_labels spread trim trimmed
build_http_route_manifest input service_name = record {
  name = some input.name;
  namespace = some input.namespace;
  creation_timestamp = none;
  labels = spread (ownership_labels input.name input.membership) input.extra_labels;
  parent_refs =
      record {
        name = some (trim input.gateway_name);
        namespace = trimmed input.gateway_namespace;
        section_name = trimmed input.section_name;
        kind = some (codes "Gateway");
      }
      ∷ [];
  hostnames = trim input.host ∷ [];
  rules =
      record {
        matches =
            record {
              path_type = some (or_else input.path_type (codes "PathPrefix"));
              path_value = some (or_else (trimmed input.path) (codes "/"));
            }
            ∷ [];
        backend_refs =
            record {
              name = some (service_of service_name input.existing_service_name input.name);
              port = some (or_else input.service_port 80);
            }
            ∷ [];
      }
      ∷ [];
  parents = [];
}
