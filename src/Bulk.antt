-- ===== src/Bulk.antt =====
-- console/app/lib/bulk-action.ts: bulk requests, checked and run target by target.
pub mod Targets
pub mod Running
mod Tests
use kmc.Common.{
  ℕ, zero, suc, ◌+◌, Bool, true, false, not, ◌&&◌, Option, none, some, List, [], ◌∷◌, ◌++◌, ltb,
  leb, ◌==◌, if◌then◌else◌, Result, ok, err, ◌>>=◌, ◌>>◌, guard, length, Text, codes, truthy, trim,
  join, starts_with, text_eq,
}
use kmc.Errors.{ErrorValue, format_error}

-- Values of JSON; a number is kept as `String` prints it.
mutual
  pub data Json : Type 0 where
    null : Json
    bool : Bool → Json
    num : Text → Json
    str : Text → Json
    arr : Items → Json
    obj : Fields → Json

  pub data Items : Type 0 where
    nil : Items
    cons : Json → Items → Items

  pub data Fields : Type 0 where
    end : Fields
    field : Text → Json → Fields → Fields

-- `String(v)`; in an array null prints as nothing.
unfoldable mutual
  pub string_of : Json → Text
  string_of null = codes "null"
  string_of (bool true) = codes "true"
  string_of (bool false) = codes "false"
  string_of (num t) = t
  string_of (str t) = t
  string_of (arr items) = string_of_items items
  string_of (obj fields) = codes "[object Object]"

  pub string_of_items : Items → Text
  string_of_items nil = []
  string_of_items (cons v nil) = string_of_item v
  string_of_items (cons v (cons w vs)) = string_of_item v ++ b',' ∷ string_of_items (cons w vs)

  pub string_of_item : Json → Text
  string_of_item null = []
  string_of_item (bool true) = codes "true"
  string_of_item (bool false) = codes "false"
  string_of_item (num t) = t
  string_of_item (str t) = t
  string_of_item (arr items) = string_of_items items
  string_of_item (obj fields) = codes "[object Object]"

abbrev pub list_of : Items → List Json
list_of nil = []
list_of (cons v vs) = v ∷ list_of vs

-- The last field of a name counts.
unfoldable pub member : Text → Fields → Option Json
unfolding text_eq
member name end = none
member name (field k v fs) = elim (member name fs) [
  | some w ↦ some w
  | none ↦ if text_eq k name then some v else none
]

abbrev pub target_limit : ℕ
target_limit = 100

pub data BulkError : Type 0 where
  missing_targets : BulkError
  invalid_json : BulkError
  not_an_array : BulkError
  none_selected : BulkError
  too_many : BulkError
  not_an_object : BulkError
  missing_fields : BulkError

checked_items : Option Json → Result BulkError (List Json)
checked_items none = err invalid_json
checked_items (some (arr nil)) = err none_selected
checked_items (some (arr (cons v vs))) =
    if ltb target_limit (length (list_of (cons v vs)))
    then err too_many
    else ok (list_of (cons v vs))
checked_items (some null) = err not_an_array
checked_items (some (bool b)) = err not_an_array
checked_items (some (num t)) = err not_an_array
checked_items (some (str t)) = err not_an_array
checked_items (some (obj fs)) = err not_an_array

-- `parse` is `JSON.parse`, `none` when it throws.
module _ (parse : Text → Option Json) where
  unfoldable pub parse_target_array : Option Text → Result BulkError (List Json)
  unfolding checked_items trim
  parse_target_array none = err missing_targets
  parse_target_array (some raw) =
      if truthy (trim raw) then checked_items (parse raw) else err missing_targets

present : Option Json → Text
unfolding string_of
present none = []
present (some null) = []
present (some (bool b)) = string_of (bool b)
present (some (num t)) = t
present (some (str t)) = t
present (some (arr items)) = string_of (arr items)
present (some (obj fs)) = string_of (obj fs)

-- `field(item, name)` on the fields of an object; an array has none of the names that are asked.
unfoldable pub field_text : Fields → Text → Text
unfolding present member trim
field_text fs name = trim (present (member name fs))

unfoldable pub object_fields : Json → Result BulkError Fields
object_fields (obj fs) = ok fs
object_fields (arr items) = ok end
object_fields null = err not_an_object
object_fields (bool b) = err not_an_object
object_fields (num t) = err not_an_object
object_fields (str t) = err not_an_object

pub record ResourceTarget : Type 0 where
  pub cluster : Text
  pub namespace : Text
  pub name : Text

pub record ClusterTarget : Type 0 where
  pub cluster : Text
  pub name : Text

pub record FloatingIpTarget : Type 0 where
  pub cluster : Text
  pub namespace : Text
  pub vpc_name : Text
  pub id_or_public : Text

unfoldable pub resource_target : Fields → Result BulkError ResourceTarget
unfolding field_text
resource_target fs =
    let cluster = field_text fs (codes "cluster") in
    let namespace = field_text fs (codes "namespace") in
    let name = field_text fs (codes "name") in
    if truthy cluster && truthy namespace && truthy name
    then ok (record { cluster = cluster; namespace = namespace; name = name })
    else err missing_fields

unfoldable pub cluster_target : Fields → Result BulkError ClusterTarget
unfolding field_text
cluster_target fs =
    let cluster = field_text fs (codes "cluster") in
    let name = field_text fs (codes "name") in
    if truthy cluster && truthy name
    then ok (record { cluster = cluster; name = name })
    else err missing_fields

unfoldable pub id_target : Fields → Result BulkError Text
unfolding field_text
id_target fs =
    let id = field_text fs (codes "id") in if truthy id then ok id else err missing_fields

or_text : Text → Text → Text
or_text [] t = t
or_text (c ∷ s) t = c ∷ s

unfoldable pub floating_ip_target : Fields → Result BulkError FloatingIpTarget
unfolding field_text or_text
floating_ip_target fs =
    let cluster = field_text fs (codes "cluster") in
    let namespace = field_text fs (codes "namespace") in
    let vpc_name = field_text fs (codes "vpcName") in
    let id_or_public = or_text (field_text fs (codes "idOrPublic")) (field_text fs (codes "id")) in
    if truthy cluster && truthy namespace && truthy vpc_name && truthy id_or_public
    then ok (record {
      cluster = cluster;
      namespace = namespace;
      vpc_name = vpc_name;
      id_or_public = id_or_public;
    })
    else err missing_fields

-- The loop over the items, which stops at the first that is no target.
unfoldable pub each_target {ℓ} :
    {T : Type ℓ} → (Fields → Result BulkError T) → List Json → Result BulkError (List T)
unfolding object_fields
each_target read [] = ok []
each_target read (item ∷ items) = do
  fs ← object_fields item
  t ← read fs
  ts ← each_target read items
  ok (t ∷ ts)

module _ (parse : Text → Option Json) where
  unfoldable pub parse_targets {ℓ} :
      {T : Type ℓ} → (Fields → Result BulkError T) → Option Text → Result BulkError (List T)
  unfolding parse_target_array each_target
  parse_targets read raw = do items ← parse_target_array parse raw; each_target read items

  unfoldable pub parse_namespaced_bulk_targets :
      Option Text → Result BulkError (List ResourceTarget)
  unfolding parse_targets resource_target
  parse_namespaced_bulk_targets raw = parse_targets resource_target raw

  unfoldable pub parse_cluster_bulk_targets : Option Text → Result BulkError (List ClusterTarget)
  unfolding parse_targets cluster_target
  parse_cluster_bulk_targets raw = parse_targets cluster_target raw

  unfoldable pub parse_id_bulk_targets : Option Text → Result BulkError (List Text)
  unfolding parse_targets id_target
  parse_id_bulk_targets raw = parse_targets id_target raw

  unfoldable pub parse_floating_ip_bulk_targets :
      Option Text → Result BulkError (List FloatingIpTarget)
  unfolding parse_targets floating_ip_target
  parse_floating_ip_bulk_targets raw = parse_targets floating_ip_target raw
