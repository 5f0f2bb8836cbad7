-- ===== src/HttpRoutes/Atomicity.antt =====
-- What a failed `createHttpRoute` of console/app/httproutes/httproutes.server.ts leaves behind.
use kmc.Common.{
  ◌≡◌, refl, ap, ◌∙◌, ◌⊎◌, inl, inr, Option, none, some, Result, ok, err, ◌>>◌, Result-cases,
  trimmed, Text,
}
use kmc.Errors.{ErrorValue}
use kmc.Backends.Membership.{BackendMembership}
use kmc.HttpRoutes.Objects.{KubeHttpRoute}
use kmc.HttpRoutes.Summaries.{HttpRouteSummary}
use kmc.HttpRoutes.Manifests.{CreateHttpRouteRequest, build_http_route_manifest}
use kmc.HttpRoutes.Lifecycle.{
  RouteApi, CompanionRequest, finish, create_beside, with_companion, create_checked, companion_of,
  create_http_route, check_request, check_absent, check_service, named_group,
}

abbrev pub Reply : Type 0 → Type 0
Reply S = Result ErrorValue HttpRouteSummary × S

-- A call that fails has changed nothing of the view, and the deletion of a Service that was just
-- created takes it back, unless the cluster refuses it.
pub record IsUndoable {S V : Type 0} (api : RouteApi S) (view : S → V) (Refuses : Text → S → Type 0)
    : Type 0 where
  pub route_fails :
      (body : KubeHttpRoute) (s t : S) (e : ErrorValue)
      → api.create_route body s ≡ (err e, t)
      → view t ≡ view s
  pub backend_fails :
      (c : CompanionRequest) (s t : S) (e : ErrorValue)
      → api.create_backend c s ≡ (err e, t)
      → view t ≡ view s
  pub undone :
      (c : CompanionRequest) (s made after : S)
      → api.create_backend c s ≡ (ok tt, made)
      → view after ≡ view made
      → (view (api.delete_backend c.name after).1 ≡ view s) ⊎ Refuses c.name after

-- The companion of a route that failed stays where the cluster refuses its deletion.
pub record IsLeft {S V : Type 0} (api : RouteApi S) (view : S → V) (Refuses : Text → S → Type 0)
    (name : Text) (s t : S) : Type 0 where
  pub companion : CompanionRequest
  pub named : companion.name ≡ name
  pub made : S
  pub after : S
  pub created : api.create_backend companion s ≡ (ok tt, made)
  pub unchanged : view after ≡ view made
  pub refused : Refuses name after
  pub reached : t ≡ (api.delete_backend name after).1

module _ {S V : Type 0} (api : RouteApi S) (view : S → V) (Refuses : Text → S → Type 0)
    (laws : IsUndoable api view Refuses) (input : CreateHttpRouteRequest) where
  -- What an error of a reply says of its state.
  abbrev Keeps : S → Reply S → Type 0
  Keeps s r =
      (e : ErrorValue)
      → r.0 ≡ err e
      → (view r.1 ≡ view s) ⊎ IsLeft api view Refuses input.name s r.1

  refused-Keeps : (s : S) (e : ErrorValue) → Keeps s (err e, s)
  refused-Keeps s e d h = inl refl

  finish-undo :
      (body : KubeHttpRoute) (undo : S → S) (m : S) (r : Result ErrorValue KubeHttpRoute × S)
      → api.create_route body m ≡ r
      → (e : ErrorValue) → (finish api input body undo r).0 ≡ err e
      → (t : S) × (view t ≡ view m) × ((finish api input body undo r).1 ≡ undo t)
  unfolding finish
  finish-undo body undo m (ok route, t) sent e h = cc
  finish-undo body undo m (err d, t) sent e h = (t, laws.route_fails body m t d sent, refl)

  alone-Keeps :
      (body : KubeHttpRoute) (s : S)
      → Keeps s (finish api input body (λ t. t) (api.create_route body s))
  alone-Keeps body s e h =
      let (t, same, reached) = finish-undo body (λ t. t) s (api.create_route body s) refl e h in
      inl (ap view reached ∙ same)

  create_beside-Keeps :
      (body : KubeHttpRoute) (service : Text) (s : S)
      → Keeps s (create_beside api input body service s)
  unfolding create_beside
  create_beside-Keeps body service s =
      elim (Result-cases (check_service input.namespace service (api.read_service service s))) [
        | inl (_, q) ↦ rw (q, create_beside) (alone-Keeps body s)
        | inr (e, q) ↦ rw (q, create_beside) (refused-Keeps s e)
      ]

  with_companion-Keeps :
      (body : KubeHttpRoute) (m : BackendMembership) (s : S) (r : Result ErrorValue (Unit {0}) × S)
      → api.create_backend (companion_of input m) s ≡ r
      → Keeps s (with_companion api input body r)
  unfolding with_companion companion_of
  with_companion-Keeps body m s (err d, t) made e h =
      inl (laws.backend_fails (companion_of input m) s t d made)
  with_companion-Keeps body m s (ok _, made) sent e h =
      let (t, same, reached) =
        finish-undo body (λ u. (api.delete_backend input.name u).1) made
          (api.create_route body made) refl e h in
      elim (laws.undone (companion_of input m) s made t sent same) [
        | inl gone ↦ inl (ap view reached ∙ gone)
        | inr refused ↦ inr (record {
          companion = companion_of input m;
          named = refl;
          made = made;
          after = t;
          created = sent;
          unchanged = same;
          refused = refused;
          reached = reached;
        })
      ]

  create_checked-Keeps :
      (service : Option Text) (membership : Option BackendMembership) (s : S)
      → Keeps s (create_checked api input service membership s)
  unfolding create_checked
  create_checked-Keeps (some service) membership s =
      create_beside-Keeps
        (build_http_route_manifest (record input { membership = membership }) (some service))
        service s
  create_checked-Keeps none (some m) s =
      with_companion-Keeps
        (build_http_route_manifest (record input { membership = some m }) (some input.name)) m s
        (api.create_backend (companion_of input m) s) refl
  create_checked-Keeps none none s =
      alone-Keeps (build_http_route_manifest (record input { membership = none }) (some input.name))
        s

  abbrev passes : S → Result ErrorValue (Unit {0})
  passes s = check_request input >> check_absent input (api.read_route input.name s)

  pub create_http_route_undone :
      (s : S) (e : ErrorValue)
      → (create_http_route api input s).0 ≡ err e
      → (view (create_http_route api input s).1 ≡ view s)
        ⊎ IsLeft api view Refuses input.name s (create_http_route api input s).1
  unfolding create_http_route
  create_http_route_undone s =
      elim (Result-cases (passes s)) as (λ _. Keeps s (create_http_route api input s)) [
        | inl (_, q) ↦
            rw (q, create_http_route)
              (create_checked-Keeps (trimmed input.existing_service_name)
                (named_group input.name input.membership) s)
        | inr (d, q) ↦ rw (q, create_http_route) (refused-Keeps s d)
      ]
