-- ===== src/Api/Leases.antt =====
-- internal/api/types.go: Lease.
use k8s_lite.Prelude.{String, Option, List, ℤ}
use k8s_lite.Api.Meta.{Time, TypeMeta, ObjectMeta, ListMeta}

pub record LeaseSpec : Type 0 where
  pub holder_identity : Option String
  pub lease_duration_seconds : Option ℤ
  pub acquire_time : Option Time
  pub renew_time : Option Time
  pub lease_transitions : Option ℤ

pub record Lease : Type 0 where
  pub type_meta : TypeMeta
  pub metadata : ObjectMeta
  pub open metadata use *
  pub spec : LeaseSpec

pub record LeaseList : Type 0 where
  pub type_meta : TypeMeta
  pub list_meta : ListMeta
  pub items : List Lease
