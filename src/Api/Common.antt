-- ===== src/Api/Common.antt =====
-- api/v1/common.go: the types that several components share. The type Percent is a string here;
-- its JSON methods are not modelled.
use telemetry_operator.Base.{String, Option, none, List, []}
use telemetry_operator.Kube.{StringMap, Kube, LocalObjectReference, SecretKeySelector}

pub record ImageSpec : Type 0 where
  pub name : String
  pub pull_policy : String
  pub pull_secrets : List LocalObjectReference

abbrev pub zero_image_spec : ImageSpec
zero_image_spec = record { name = ""; pull_policy = ""; pull_secrets = [] }

pub record StorageSpec (K : Kube) : Type 0 where
  pub size : K.Quantity
  pub class_name : Option String
  pub reclaim_policy : String
  pub annotations : StringMap

abbrev pub zero_storage_spec : (K : Kube) → StorageSpec K
zero_storage_spec K = record {
  size = K.zero_quantity;
  class_name = none;
  reclaim_policy = "";
  annotations = [];
}

pub record BasicAuthSpec : Type 0 where
  pub username : String
  pub password : String
  pub password_secret : Option SecretKeySelector

pub record HeaderSpec : Type 0 where
  pub key : String
  pub value : String
