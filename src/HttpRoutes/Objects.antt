-- ===== src/HttpRoutes/Objects.antt =====
-- The resources that console/app/httproutes/httproutes.server.ts reads, of the Gateway API. Absent
-- labels and lists are empty.
use kmc.Common.{ℕ, Option, List, Text, Labels}

pub record KubeParentRef : Type 0 where
  pub name : Option Text
  pub namespace : Option Text
  pub section_name : Option Text
  pub kind : Option Text

pub record RouteMatch : Type 0 where
  pub path_type : Option Text
  pub path_value : Option Text

pub record BackendRef : Type 0 where
  pub name : Option Text
  pub port : Option ℕ

pub record RouteRule : Type 0 where
  pub matches : List RouteMatch
  pub backend_refs : List BackendRef

pub record RouteCondition : Type 0 where
  pub type : Option Text
  pub status : Option Text

-- `parents` are the conditions of the parents in the status.
pub record KubeHttpRoute : Type 0 where
  pub name : Option Text
  pub namespace : Option Text
  pub creation_timestamp : Option Text
  pub labels : Labels
  pub parent_refs : List KubeParentRef
  pub hostnames : List Text
  pub rules : List RouteRule
  pub parents : List (List RouteCondition)

pub record Listener : Type 0 where
  pub name : Option Text
  pub protocol : Option Text
  pub port : Option ℕ
  pub hostname : Option Text

pub record KubeGateway : Type 0 where
  pub name : Option Text
  pub namespace : Option Text
  pub gateway_class_name : Option Text
  pub listeners : List Listener
  pub addresses : List (Option Text)

pub record HttpRouteParentRef : Type 0 where
  pub name : Text
  pub namespace : Option Text
  pub section_name : Option Text
  pub kind : Option Text
