-- ===== src/Client/Keeping.antt =====
-- What calls of internal/client/client.go leave in place, however they end.
use mathlib.Core.Option.{some-injective}
use k8s_lite.Prelude.{
  String, ◌≡◌, ◌≢◌, inl, inr, ap, ◌∙◌, some, arith, refl, Exec, Flow, ret, blocked, panicked,
  continue, ◌>>=◌, lookup, lookup-insert, eq_iff, state-bind-pure, Option-cases,
}
use k8s_lite.Api.Objects.{Kind, Obj, nodes}
use k8s_lite.Api.Nodes.{Node}
use k8s_lite.Api.Stored.{Json}
use k8s_lite.Registry.{key}
use k8s_lite.Storage.Memory
use k8s_lite.Storage.Spec.{view}
use k8s_lite.Storage.Refinement.{table-notify_and_sync}
use k8s_lite.ApiServer
use k8s_lite.ApiServer.{serve, post}
use k8s_lite.ApiServer.Replies.{serve-isolated, target}
use k8s_lite.ApiServer.WellFormed.{handle_create-table}
use k8s_lite.Cluster.{Env, Cluster, send}
use k8s_lite.Client.Methods.{create, delete, delete_reply, register_node, register_reply}
use k8s_lite.Client.Effects.{served, store-send, store-create}

module _ ⦃json : Json⦄ ⦃env : Env json.Bytes⦄ where
  stored_kept :
      (i : String) (k : Kind) (obj : Obj k) (s : Memory.Store) (j : String) (b : json.Bytes)
      → view s j ≡ some b
      → view (Memory.create i k obj s).1 j ≡ some b
  unfolding Memory.create
  stored_kept i k obj s j b h = grind (arith, table-notify_and_sync, lookup-insert, eq_iff i j)

  served_kept :
      (k : Kind) (body : json.Bytes) (w : Cluster) (j : String) (b : json.Bytes)
      → view w.store j ≡ some b
      → view (served (post k body) w) j ≡ some b
  unfolding serve
  served_kept k body w j b h = elim (handle_create-table k body w.store) [
    | inl e ↦ ap (lookup j) e ∙ h
    | inr (obj, _, e) ↦ ap (lookup j) e ∙ stored_kept _ k obj w.store j b h
  ]

  -- A create of the client, however it ends, leaves every object that exists as it is.
  pub create_kept :
      (k : Kind) (obj : Obj k) (w : Cluster) (j : String) (b : json.Bytes)
      → view w.store j ≡ some b
      → view (create k obj w).1.store j ≡ some b
  create_kept k obj w j b h = elim (store-create k obj w) [
    | inl e ↦ rw e h
    | inr (body, _, e) ↦ rw e (served_kept k body w j b h)
  ]

  -- A registration, however it ends, leaves every object that exists as it is.
  pub register_node_kept :
      (node : Node) (w : Cluster) (j : String) (b : json.Bytes)
      → view w.store j ≡ some b
      → view (register_node node w).1.store j ≡ some b
  unfolding register_node
  register_node_kept node w j b h = elim (Option-cases (json.marshal nodes node)) [
    | inl e ↦ rw e h
    | inr (body, e) ↦ rw e (
        ap (λ (v : Cluster). view v.store j)
          (state-bind-pure (send (post nodes body)) register_reply w)
        ∙ sent body)
  ]
    where
      sent : (body : json.Bytes) → view (send (post nodes body) w).1.store j ≡ some b
      sent body = elim (store-send (post nodes body) w) [
        | inl e ↦ rw e h
        | inr e ↦ rw e (served_kept nodes body w j b h)
      ]

  -- A delete of one name touches no other key.
  pub view-delete :
      (k : Kind) (name : String) (w : Cluster) (j : String)
      → key k name ≢ j
      → view (delete k name w).1.store j ≡ view w.store j
  unfolding delete target
  view-delete k name w j n = elim (store-send (ApiServer.delete k name) w) [
    | inl e ↦ ground (arith, state-bind-pure (send (ApiServer.delete k name)) delete_reply w, e)
    | inr e ↦ ground (
      arith,
      state-bind-pure (send (ApiServer.delete k name)) delete_reply w,
      e,
      serve-isolated (env.order w.clock) (ApiServer.delete k name) w.store j
          (λ q. n (some-injective _ _ q)),
    )
  ]

  -- A chain whose parts leave a key alone leaves it alone.
  pub then_kept :
      {A B : Type 0} (m : Exec Cluster A) (f : A → Exec Cluster B) (w : Cluster) (j : String)
      → view (m w).1.store j ≡ view w.store j
      → ((a : A) → (m w).0 ≡ ret a → view (f a (m w).1).1.store j ≡ view (m w).1.store j)
      → view ((m >>= f) w).1.store j ≡ view w.store j
  then_kept {A = A} m f w j e k = kept (m w).0 refl
    where
      kept : (r : Flow A) → (m w).0 ≡ r → view (continue r f (m w).1).1.store j ≡ view w.store j
      kept (ret a) q = k a q ∙ e
      kept blocked q = e
      kept panicked q = e
