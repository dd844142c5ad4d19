-- ===== src/Api/Meta.antt =====
-- internal/api/types.go: TypeMeta, ObjectMeta, ListMeta and LabelSelector.
use k8s_lite.Prelude.{ℕ, String, Option, none, [], Map}

abbrev pub Time : Type 0
Time = ℕ

pub record TypeMeta : Type 0 where
  pub kind : String
  pub api_version : String

pub record ObjectMeta : Type 0 where
  pub name : String
  pub namespace : String
  pub labels : Map String
  pub annotations : Map String
  pub resource_version : String
  pub creation_timestamp : Time
  pub deletion_timestamp : Option Time

pub record ListMeta : Type 0 where
  pub resource_version : String

pub record LabelSelector : Type 0 where
  pub match_labels : Map String

-- The zero values of Go.
abbrev pub zero_type_meta : TypeMeta
zero_type_meta = record { kind = ""; api_version = "" }

abbrev pub zero_object_meta : ObjectMeta
zero_object_meta = record {
  name = "";
  namespace = "";
  labels = [];
  annotations = [];
  resource_version = "";
  creation_timestamp = 0;
  deletion_timestamp = none;
}

abbrev pub zero_list_meta : ListMeta
zero_list_meta = record { resource_version = "" }
