-- ===== src/Backends/Services/Changes/Endings.antt =====
-- What `createBackend` of console/app/backends/backends.server.ts leaves of the Services.
use kmc.Common.{
  ◌≡◌, ◌≢◌, refl, sym, ap, ◌∙◌, Bool-cases, inl, inr, some, Result, ok, err, ◌>>◌, Result-cases,
  guard-eq-ok, ok_injective, Text, includes, codes, Labels, Option,
}
use kmc.Errors.{ErrorValue, plain_error}
use kmc.Backends.Membership.{resolve_service_selector, BackendMembership, single_vm, labels, group}
use kmc.Backends.Stamp.{KubeVm, is_not_found}
use kmc.Backends.Stamp.Untouched.{
  Survives, stamp_backend_group-Survives, unstamp_backend_group-Survives,
}
use kmc.Backends.Services.{
  KubeService, BackendSummary, CreateBackendRequest, build_service_manifest, full,
}
use kmc.Backends.Services.Changes.{
  BackendApi, Done, stamped, cleared, created, create_absent, create_stamped, after_stamp,
  create_backend, check_request, ensured, normalized, message_of,
}

-- The cluster keeps Services apart from machines and from each other, and a creation that it refuses
-- creates none.
pub record KeepsApart {S : Type 0} (api : BackendApi S) : Type 0 where
  pub by_vm :
      (n m : Text) (vm : KubeVm) (s : S)
      → api.read_service m (api.vms.replace_vm n vm s).1 ≡ api.read_service m s
  pub by_creation :
      (body : KubeService) (n m : Text) (s : S)
      → body.name ≡ some n
      → m ≢ n
      → api.read_service m (api.create_service body s).1 ≡ api.read_service m s
  pub by_refusal :
      (body : KubeService) (m : Text) (s : S) (e : ErrorValue)
      → (api.create_service body s).0 ≡ err e
      → api.read_service m (api.create_service body s).1 ≡ api.read_service m s

module _ {S : Type 0} (api : BackendApi S) (Q : S → Type 0) (survives : Survives api.vms Q) where
  cleared-Survives : (m : BackendMembership) (s : S) → Q s → Q (cleared api m s)
  unfolding cleared
  cleared-Survives (single_vm vm) s h = h
  cleared-Survives (labels ls) s h = h
  cleared-Survives (group id names) s h =
      unstamp_backend_group-Survives api.vms Q survives names s h

  stamped-Survives :
      (namespace : Text) (m : BackendMembership) (s : S) → Q s → Q (stamped api namespace m s).1
  unfolding stamped
  stamped-Survives namespace (single_vm vm) s h = h
  stamped-Survives namespace (labels ls) s h = h
  stamped-Survives namespace (group id names) s h =
      stamp_backend_group-Survives api.vms Q survives namespace id names s h

module _ {S : Type 0} (api : BackendApi S) (laws : KeepsApart api) (m : Text) (s : S)
    (name : Text) where
  abbrev Reads : S → Type 0
  Reads t = api.read_service m t ≡ api.read_service m s

  abbrev Absent : Type 0
  Absent = (e : ErrorValue) × (api.read_service name s ≡ err e)

  -- The Service `m` is as before when there was an error, or when it is not the one of that name,
  -- and that one was not there when there was none.
  pub record IsCreation (r : Result ErrorValue BackendSummary × S) : Type 0 where
    pub when_error : (e : ErrorValue) → r.0 ≡ err e → Reads r.1
    pub when_other : m ≢ name → Reads r.1
    pub when_created : (b : BackendSummary) → r.0 ≡ ok b → Absent

  Reads-Survives : Survives api.vms Reads
  Reads-Survives n vm t h = laws.by_vm n m vm t ∙ h

  refused-IsCreation : (e : ErrorValue) (t : S) → Reads t → IsCreation (err e, t)
  refused-IsCreation e t h = record {
    when_error = λ d q. h;
    when_other = λ ne. h;
    when_created = λ b q. cc;
  }

  module _ (stringify : Labels → Text) (parse_object : Text → Option Labels) where
    created-IsCreation :
        (cluster : Text) (members : BackendMembership) (body : KubeService) (t : S)
        (r : Result ErrorValue KubeService × S)
        → body.name ≡ some name
        → Absent
        → Reads t
        → api.create_service body t ≡ r
        → IsCreation (created api stringify parse_object cluster members r)
    unfolding created
    created-IsCreation cluster members body t (ok svc, u) named absent h q = record {
      when_error = λ d x. cc;
      when_other = λ ne.
          ap (λ p. api.read_service m p.1) (sym q) ∙ laws.by_creation body name m t named ne ∙ h;
      when_created = λ b x. absent;
    }
    created-IsCreation cluster members body t (err e, u) named absent h q = refused-IsCreation _ _ (
        cleared-Survives api Reads Reads-Survives members u (
          ap (λ p. api.read_service m p.1) (sym q)
          ∙ laws.by_refusal body m t e (ap (λ p. p.0) q)
          ∙ h))

    manifest-named :
        (input : CreateBackendRequest) (body : KubeService)
        → build_service_manifest stringify parse_object input ≡ ok body
        → body.name ≡ some input.name
    unfolding build_service_manifest
    manifest-named input body h =
        let (_, h1) =
          guard-eq-ok (full input.ports) (plain_error (codes "backend requires at least one port"))
            _ h in
        let (_, h2) =
          guard-eq-ok (full (resolve_service_selector input.membership))
            (plain_error (codes "backend selector cannot be empty")) _ h1 in
        sym (ap (λ b. b.name) (ok_injective h2))

    module _ (input : CreateBackendRequest) (is_name : input.name ≡ name)
        (members : BackendMembership) where
      create_absent-IsCreation :
          (t : S)
          → Absent
          → Reads t
          → IsCreation (create_absent api stringify parse_object input members t)
      unfolding create_absent
      create_absent-IsCreation t absent h =
          elim (Result-cases (
            build_service_manifest stringify parse_object
              (record input { membership = members }))) [
                | inl (body, q) ↦
                    rw (q, create_absent)
                      (created-IsCreation input.cluster members body t (api.create_service body t)
                        (manifest-named (record input { membership = members }) body q
                          ∙ ap some is_name)
                        absent h refl)
                | inr (e, q) ↦ rw (q, create_absent) (refused-IsCreation e t h)
              ]

      create_stamped-IsCreation :
          (r : Result ErrorValue KubeService) (t : S)
          → r ≡ api.read_service name s
          → Reads t
          → IsCreation (create_stamped api stringify parse_object input members r t)
      unfolding create_stamped
      create_stamped-IsCreation (ok svc) t same h =
          refused-IsCreation _ _ (cleared-Survives api Reads Reads-Survives members t h)
      create_stamped-IsCreation (err e) t same h =
          elim (Bool-cases (includes (codes "already exists") (message_of e))) [
            | inl there ↦ rw there (refused-IsCreation e t h)
            | inr new ↦ elim (Bool-cases (is_not_found e)) [
              | inl missing ↦ rw (new, missing) (create_absent-IsCreation t (e, sym same) h)
              | inr other ↦
                  rw (new, other)
                    (refused-IsCreation _ _ (cleared-Survives api Reads Reads-Survives members t h))
            ]
          ]

      after_stamp-IsCreation :
          (r : Done S)
          → Reads r.1
          → api.read_service name r.1 ≡ api.read_service name s
          → IsCreation (after_stamp api stringify parse_object input members r)
      unfolding after_stamp
      after_stamp-IsCreation (err e, t) h same = refused-IsCreation e t h
      after_stamp-IsCreation (ok _, t) h same =
          create_stamped-IsCreation (api.read_service input.name t) t
            (ap (λ n. api.read_service n t) is_name ∙ same) h

  pub create_backend-IsCreation :
      (stringify : Labels → Text) (parse_object : Text → Option Labels)
      (input : CreateBackendRequest)
      → input.name ≡ name
      → IsCreation (create_backend api stringify parse_object input s)
  unfolding create_backend
  create_backend-IsCreation stringify parse_object input is_name =
      let members = normalized input.name input.membership in
      let Named = λ (t : S). api.read_service name t ≡ api.read_service name s in
      elim (Result-cases (check_request input >> ensured api input.namespace members s)) [
        | inl (_, q) ↦
            rw (q, create_backend)
              (after_stamp-IsCreation stringify parse_object input is_name members
                (stamped api input.namespace members s)
                (stamped-Survives api Reads Reads-Survives input.namespace members s refl)
                (stamped-Survives api Named (λ n vm t h. laws.by_vm n name vm t ∙ h) input.namespace
                  members s refl))
        | inr (e, q) ↦ rw (q, create_backend) (refused-IsCreation e s refl)
      ]
