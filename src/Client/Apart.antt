-- ===== src/Client/Apart.antt =====
-- Keys apart from a kind of object, and rounds that begin with a listing.
use k8s_lite.Prelude.{String, ◌≡◌, ◌≢◌, ap, List, Exec, ◌>>=◌}
use k8s_lite.Api.Objects.{Kind, Obj}
use k8s_lite.Api.Stored.{Json}
use k8s_lite.Registry.{key}
use k8s_lite.Storage.Spec.{view}
use k8s_lite.Cluster.{Env, Cluster}
use k8s_lite.Client.Methods.{Reply, list}
use k8s_lite.Client.Effects.{store-list}
use k8s_lite.Client.Keeping.{then_kept}

-- A key that no object of the kind has.
abbrev pub IsApart : Kind → String → Type 0
IsApart k j = (name : String) → key k name ≢ j

module _ ⦃json : Json⦄ ⦃env : Env json.Bytes⦄ where
  pub list_then_kept :
      {B : Type 0} (k : Kind) (f : Reply (List (Obj k)) → Exec Cluster B) (w : Cluster) (j : String)
      → ((r : Reply (List (Obj k))) (v : Cluster) → view (f r v).1.store j ≡ view v.store j)
      → view ((list k >>= f) w).1.store j ≡ view w.store j
  list_then_kept k f w j h =
      then_kept (list k) f w j (ap (λ s. view s j) (store-list k w)) (λ r e. h r (list k w).1)
