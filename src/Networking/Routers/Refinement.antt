-- ===== src/Networking/Routers/Refinement.antt =====
-- What a router promises of its networks, as a set of names, a number and whether there is a
-- gateway, against the resources of console/app/vpcs/routers.server.ts.

use kmc.Common.{
  ℕ, ◌+◌, ◌-◌, ◌≤◌, ◌≡◌, refl, sym, ap, subst, ◌∙◌, Bool, true, false, not, ◌&&◌, ◌||◌, Option,
  none, some, [], ◌∷◌, ◌++◌, arith, length, length-append, leb, if◌then◌else◌, Text, trim, trimmed,
  nonempty, truthy, text_eq,
}
use kmc.Networking.Objects.{RouterCr}
use kmc.Networking.Routers.{max_multus_attachments, spec_external}
use kmc.Networking.Routers.Attachments.{
  is_attached, multus_count, with_vpcs, other_vpcs, attachment,
}
use kmc.Networking.Routers.Names.{is_attached-append, is_attached-other, length-other}
use kmc.Networking.Routers.Outcomes.{IsOpened, IsRebuilt}
use kmc.Networking.Routers.Machine.{
  Step, attached, detached, opened, rebuilt, reported, Effect, adds, removes, opens, keeps,
  effect_of, IsSound,
}

-- The networks as a set, their number, and whether there is a gateway.
pub record Links : Type 0 where
  pub has_vpc : Text → Bool
  pub count : ℕ
  pub gateway : Bool

pub data Change : Type 0 where
  add : Text → Change
  remove : Text → Change
  open_gateway : Change
  keep_links : Change

abbrev units : Bool → ℕ
units true = 1
units false = 0

when : Bool → Links → Option Links
when true l = some l
when false l = none

-- A network is added once and while there is room, and removed while there is another; a gateway
-- is opened while there is room.
unfoldable pub change : Change → Links → Option Links
unfolding when text_eq
change (add n) l =
    when (not (l.has_vpc n) && leb (l.count + units l.gateway + 1) 8) (record {
      has_vpc = λ m. l.has_vpc m || text_eq n m;
      count = l.count + 1;
      gateway = l.gateway;
    })
change (remove n) l = when (l.has_vpc n && leb 2 l.count) (record {
  has_vpc = λ m. if text_eq n m then false else l.has_vpc m;
  count = l.count - 1;
  gateway = l.gateway;
})
change open_gateway l =
    when (leb (l.count + 1) 8) (record { has_vpc = l.has_vpc; count = l.count; gateway = true })
change keep_links l = some l

abbrev is_some : Option Text → Bool
is_some none = false
is_some (some t) = true

-- What is seen of a resource.
unfoldable pub links : RouterCr → Links
unfolding is_attached spec_external
links router = record {
  has_vpc = λ n. is_attached n router.spec.vpcs;
  count = length router.spec.vpcs;
  gateway = is_some (spec_external router);
}

unfoldable pub effect_change : (r s : RouterCr) → Effect r s → Change
effect_change r s (adds name h) = add name
effect_change r s (removes name h) = remove name
effect_change r s (opens network h) = open_gateway
effect_change r s (keeps h) = keep_links

when-true : (b : Bool) (l : Links) → b ≡ true → when b l ≡ some l
unfolding when
when-true b l h = rw h refl

Links-ext :
    (l k : Links)
    → ((n : Text) → l.has_vpc n ≡ k.has_vpc n)
    → l.count ≡ k.count
    → l.gateway ≡ k.gateway
    → l ≡ k
Links-ext l k h c g = λ i. record { has_vpc = λ n. h n i; count = c i; gateway = g i }

is_some-nonempty : (t : Text) → truthy t ≡ true → is_some (nonempty t) ≡ true
is_some-nonempty [] h = cc
is_some-nonempty (c ∷ t) h = refl

count_add :
    (name : Text) (r : RouterCr)
    → length (r.spec.vpcs ++ attachment name ∷ []) ≡ length r.spec.vpcs + 1
count_add name r = omega (arith, length-append r.spec.vpcs (attachment name ∷ []))

allow-add :
    (name : Text) (r : RouterCr)
    → is_attached name r.spec.vpcs ≡ false
    → multus_count r + 1 ≤ max_multus_attachments
    → (not (is_attached name r.spec.vpcs)
        && leb (length r.spec.vpcs + units (is_some (spec_external r)) + 1) 8)
      ≡ true
unfolding multus_count
allow-add name r fresh room = ground arith

links-add :
    (name : Text) (r : RouterCr)
    → is_attached name r.spec.vpcs ≡ false
    → multus_count r + 1 ≤ max_multus_attachments
    → change (add name) (links r) ≡ some (links (with_vpcs (r.spec.vpcs ++ attachment name ∷ []) r))
unfolding change links multus_count spec_external
links-add name r fresh room =
    when-true _ _ (allow-add name r fresh room)
    ∙ ap some (
        Links-ext _ _ (λ n. sym (is_attached-append n name r.spec.vpcs)) (sym (count_add name r))
          refl)

links-remove :
    (name : Text) (r : RouterCr)
    → IsSound r
    → is_attached name r.spec.vpcs ≡ true
    → 2 ≤ length r.spec.vpcs
    → change (remove name) (links r) ≡ some (links (with_vpcs (other_vpcs name r.spec.vpcs) r))
unfolding change links spec_external
links-remove name r sound known several =
    when-true _ _ (ground arith)
    ∙ ap some (
        Links-ext _ _ (λ n. sym (is_attached-other n name r.spec.vpcs))
          (omega (arith, length-other name r.spec.vpcs sound.distinct known)) refl)

links-open :
    (network : Text) (r s : RouterCr)
    → IsOpened network r s
    → change open_gateway (links r) ≡ some (links s)
unfolding change links spec_external trimmed
links-open network r s h =
    when-true _ _ (ground (arith, h.room))
    ∙ ap some (
        Links-ext _ _ (λ n. ap (is_attached n) (sym h.same_vpcs)) (ap length (sym h.same_vpcs))
          (sym (rw (h.opened, h.trimmed_name) (is_some-nonempty network h.named))))

links-keep : (r s : RouterCr) → IsRebuilt r s → change keep_links (links r) ≡ some (links s)
unfolding change links spec_external
links-keep r s h = ap some (
    Links-ext _ _ (λ n. ap (is_attached n) (sym h.same_vpcs)) (ap length (sym h.same_vpcs))
      (rw h.same_external refl))

effect-change :
    (r s : RouterCr) (e : Effect r s)
    → IsSound r
    → change (effect_change r s e) (links r) ≡ some (links s)
unfolding effect_change
effect-change r s (adds name h) sound =
    subst (λ k. change (add name) (links r) ≡ some (links k)) (sym h.added)
      (links-add name r h.fresh h.room)
effect-change r s (removes name h) sound =
    subst (λ k. change (remove name) (links r) ≡ some (links k)) (sym h.removed)
      (links-remove name r sound h.attached h.several)
effect-change r s (opens network h) sound = links-open network r s h
effect-change r s (keeps h) sound = links-keep r s h

-- The change that a request asks for.
unfoldable pub step_change : (r s : RouterCr) → Step r s → Change
unfolding trim
step_change r s (attached get_vpc input _ h) = add (trim input.vpc_name)
step_change r s (detached addresses floating input _ h) = remove (trim input.vpc_name)
step_change r s (opened input _ h) = open_gateway
step_change r s (rebuilt now platform input _ h) = keep_links
step_change r s (reported _ e) = keep_links

-- The resources refine the abstract router: what is seen of the resource that a request sends is
-- what the request's change makes of what is seen of a sound router before, and the abstract
-- router allows that change.
pub step-change :
    (r s : RouterCr) (step : Step r s)
    → IsSound r
    → change (step_change r s step) (links r) ≡ some (links s)
unfolding step_change effect_of effect_change
step-change r s (attached get_vpc input _ h) sound =
    effect-change r s (effect_of r s (attached get_vpc input s h)) sound
step-change r s (detached addresses floating input _ h) sound =
    effect-change r s (effect_of r s (detached addresses floating input s h)) sound
step-change r s (opened input _ h) sound =
    effect-change r s (effect_of r s (opened input s h)) sound
step-change r s (rebuilt now platform input _ h) sound =
    effect-change r s (effect_of r s (rebuilt now platform input s h)) sound
step-change r s (reported _ e) sound = effect-change r s (effect_of r s (reported s e)) sound
