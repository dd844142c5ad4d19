-- ===== src/Api.antt =====
-- internal/api/types.go: the resources that the API server stores. A Go struct is a record with the
-- source's fields, an embedded struct is a field that is opened, a pointer is an `Option`, a time is
-- the count of its nanoseconds, an int32 is an integer (its range is not part of the type).
pub mod Meta
pub mod Port
pub mod Pods
pub mod Nodes
pub mod Workloads
pub mod Services
pub mod Leases
pub mod Objects
pub mod Stored
