-- ===== src/Backends/Services/Deletion.antt =====
-- `deleteBackend` and `deleteBackendIfManaged` of console/app/backends/backends.server.ts.
use kmc.Common.{
  Option, none, some, List, [], ◌∷◌, ◌++◌, if◌then◌else◌, Result, ok, err, Text, codes, Labels,
}
use kmc.Errors.{ErrorValue, format_error, caused}
use kmc.Backends.Membership.{
  ReadMembership, single_vm, labels, group, known, unknown, membership_from_service_meta,
  sorted_set,
}
use kmc.Backends.Stamp.{is_not_found, unstamp_backend_group}
use kmc.Backends.Services.{KubeService}
use kmc.Backends.Services.Changes.{BackendApi, Done, optional, is_backend, not_managed}

abbrev pub next_step {ℓ} :
    {S : Type ℓ}
    → Result ErrorValue (Unit {0}) × S
    → (S → Result ErrorValue (Unit {0}) × S)
    → Result ErrorValue (Unit {0}) × S
next_step (err e, s) f = (err e, s)
next_step (ok _, s) f = f s

module _ (stringify : Labels → Text) (parse_object : Text → Option Labels) where
  unfoldable pub read_membership : KubeService → ReadMembership
  unfolding membership_from_service_meta
  read_membership svc =
      membership_from_service_meta stringify parse_object svc.labels svc.annotations

module _ {S : Type 0} (api : BackendApi S) where
  unfoldable pub unstamp_some : List Text → S → Done S
  unfolding unstamp_backend_group
  unstamp_some [] s = (ok tt, s)
  unstamp_some (n ∷ names) s = unstamp_backend_group api.vms (n ∷ names) s

module _ {S : Type 0} (api : BackendApi S) (stringify : Labels → Text)
    (parse_object : Text → Option Labels) where
  -- The members by the annotation, and by the label where they can be listed.
  all_members : List Text → Result ErrorValue (List Text) → List Text
  unfolding sorted_set
  all_members names (err e) = names
  all_members names (ok live) = sorted_set (names ++ live)

  unfoldable pub clear_members : ReadMembership → S → Done S
  unfolding unstamp_some all_members
  clear_members unknown s = (ok tt, s)
  clear_members (known (single_vm vm)) s = (ok tt, s)
  clear_members (known (labels ls)) s = (ok tt, s)
  clear_members (known (group id names)) s =
      unstamp_some api (all_members names (api.members id s)) s

  unfoldable pub service_deleted : Done S → Done S
  unfolding is_not_found format_error
  service_deleted (ok _, s) = (ok tt, s)
  service_deleted (err e, s) =
      (if is_not_found e then ok tt else err (caused (format_error e) e), s)

  abbrev pub membership_or : Option KubeService → ReadMembership
  unfolding read_membership
  membership_or none = unknown
  membership_or (some svc) = read_membership stringify parse_object svc

  unfoldable pub delete_backend : Text → S → Done S
  unfolding optional clear_members service_deleted read_membership
  delete_backend name s = elim (optional (api.read_service name s)) [
    | err e ↦ (err e, s)
    | ok svc ↦
        next_step (service_deleted (api.delete_service name s)) (clear_members (membership_or svc))
  ]

  unfoldable pub delete_backend_if_managed : Text → Text → S → Done S
  unfolding optional is_backend delete_backend
  delete_backend_if_managed namespace name s = elim (optional (api.read_service name s)) [
    | err e ↦ (err e, s)
    | ok none ↦ (ok tt, s)
    | ok (some svc) ↦
        if is_backend svc
        then delete_backend name s
        else (err (not_managed (codes "deleting") namespace name), s)
  ]
