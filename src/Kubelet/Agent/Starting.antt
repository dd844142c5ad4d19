-- ===== src/Kubelet/Agent/Starting.antt =====
-- Start of internal/kubelet/agent.go: the registration and the loop after it.
use k8s_lite.Prelude.{
  ℕ, String, ◌≡◌, ◌<◌, ◌⊎◌, inl, inr, ap, ◌∙◌, some, arith, ret, ◌≢◌, none, Option-cases,
  state-bind-pure, repeat_inv, repeat,
}
use k8s_lite.Api.Meta.{Time}
use k8s_lite.Api.Nodes.{Node}
use k8s_lite.Api.Objects.{Kind, Obj, pods, nodes, get_object_meta}
use k8s_lite.Api.Stored.{Json, stored}
use k8s_lite.Registry.{key, key-kind}
use k8s_lite.Storage.Memory
use k8s_lite.Storage.Spec.{view}
use k8s_lite.Storage.Refinement.{notify_and_sync_error}
use k8s_lite.ApiServer.{Response, serve, post, handle_create}
use k8s_lite.ApiServer.Addressing.{post_kept}
use k8s_lite.ApiServer.Replies.{created_only, create_ok}
use k8s_lite.Cluster.{Env, Cluster, send}
use k8s_lite.Client.{success, register_node, register_reply}
use k8s_lite.Client.Effects.{send_ok}
use k8s_lite.Client.Apart.{IsApart}
use k8s_lite.Kubelet.Runtime.{Runtime}
use k8s_lite.Kubelet.Prober.{Prober}
use k8s_lite.Kubelet.Agent.Round.{
  Kubelet, Walk, new_node, register, on_cluster, run_sync, sync_loop, start,
}
use k8s_lite.Kubelet.Agent.Isolation.{run_sync_kept}

module _ ⦃json : Json⦄ where
  conflict_present :
      (k : Kind) (body : json.Bytes) (obj : Obj k) (s : Memory.Store) (r : Response)
      → json.unmarshal k body ≡ some obj
      → (handle_create k body s).0 ≡ ret r
      → r.status ≡ 409
      → view s (key k (get_object_meta k obj).name) ≢ none
  unfolding handle_create Memory.create
  conflict_present k body obj s r d h e q = grind (arith, notify_and_sync_error)

  -- A conflict is that of an object that is there.
  conflict_stored :
      (k : Kind) (body : json.Bytes) (obj : Obj k) (s : Memory.Store) (r : Response)
      → json.unmarshal k body ≡ some obj
      → (handle_create k body s).0 ≡ ret r
      → r.status ≡ 409
      → (b : json.Bytes) × (view (handle_create k body s).1 (key k (get_object_meta k obj).name)
          ≡ some b)
  conflict_stored k body obj s r d h e =
      elim (Option-cases (view s (key k (get_object_meta k obj).name))) [
        | inl q ↦ absurd (conflict_present k body obj s r d h e q)
        | inr (b, q) ↦ (b, post_kept k body s _ b q)
      ]

  nodes-IsApart : (n : String) → IsApart pods (key nodes n)
  nodes-IsApart n name e = cc (key-kind pods nodes name n e)

module _ ⦃json : Json⦄ ⦃env : Env json.Bytes⦄ where
  registered :
      (node : Node) (w : Cluster)
      → (register_node node w).0 ≡ ret (success tt)
      → (body : json.Bytes) × (a : Response) × (json.marshal nodes node ≡ some body)
        × ((send (post nodes body) w).0 ≡ ret (some a))
        × ((a.status ≡ 409) ⊎ (a.status < 400))
        × ((register_node node w).1 ≡ (send (post nodes body) w).1)
  unfolding register_node register_reply
  registered node w h = ground arith

  -- A registration that succeeds, as new or as a conflict, finds or leaves the node.
  register_node_stored :
      (node : Node) (w : Cluster)
      → (register_node node w).0 ≡ ret (success tt)
      → (b : json.Bytes) × (view (register_node node w).1.store (key nodes node.metadata.name)
          ≡ some b)
  unfolding serve get_object_meta stored
  register_node_stored node w h =
      let (body, a, m, e, lo, q) = registered node w h in
      let (r, t) = send_ok (post nodes body) w a e (ground arith) in
      let d : json.unmarshal nodes body ≡ some (stored nodes node) =
        json.round_trip nodes node body m in
      elim lo [
        | inl c ↦
            let (b, v) = conflict_stored nodes body (stored nodes node) w.store a d r c in
            (b, rw q (rw t v))
        | inr l ↦
            let (o, u) = created_only nodes body (stored nodes node) w.store a d r l in
            let (b, n, v) = create_ok _ nodes (stored nodes node) w.store o in
            (b, rw q (rw t (rw u v)))
      ]

  module _ {S P : Type 0} (runtime : Runtime S) (prober : Prober P) (walk : Walk) where
    -- If the registration of a kubelet succeeds, also because its node was there already, the node
    -- is stored whenever Start has ended or hangs, after any number of rounds of its loop.
    pub start-registered :
        (node_name : String) (now : Time) (n : ℕ) (h : Kubelet runtime prober)
        → (register runtime prober node_name now h).0 ≡ ret (success tt)
        → (b : json.Bytes) × (view
              (start runtime prober walk node_name now n h).1.cluster.store
              (key nodes node_name)
            ≡ some b)
    unfolding register on_cluster start sync_loop new_node
    start-registered node_name now n h e =
        let joined : Kubelet runtime prober = (register runtime prober node_name now h).1 in
        let round = run_sync runtime prober walk node_name in
        let (b, v) = register_node_stored (new_node node_name now) h.cluster e in
        (
          b,
          rw e (
              ap (λ (k : Kubelet runtime prober). view k.cluster.store (key nodes node_name))
                (state-bind-pure (repeat n round) (λ _. success tt) joined)
              ∙ repeat_inv
                  (λ (k : Kubelet runtime prober).
                    view k.cluster.store (key nodes node_name) ≡ some b)
                  round
                  (λ k w.
                    run_sync_kept runtime prober walk node_name k (key nodes node_name)
                      (nodes-IsApart node_name)
                    ∙ w)
                  n joined v),
        )
