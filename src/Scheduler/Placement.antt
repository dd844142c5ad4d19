-- ===== src/Scheduler/Placement.antt =====
-- Where internal/scheduler/scheduler.go puts pods, and what a round leaves alone.
use k8s_lite.Prelude.{
  String, true, false, ◌&&◌, not, List, [], ◌∷◌, ◌≡◌, ◌⊎◌, inl, inr, refl, length, keep, All, pos,
  ltb_ℤ, ret, arith, Among, get_elem?-keep,
}
use k8s_lite.Api.Pods.{Pod}
use k8s_lite.Api.Nodes.{Node}
use k8s_lite.Api.Objects.{pods}
use k8s_lite.Api.Stored.{Json}
use k8s_lite.Storage.Spec.{view}
use k8s_lite.Cluster.{Env, Cluster}
use k8s_lite.Client.{update_pod}
use k8s_lite.Client.Apart.{IsApart}
use k8s_lite.Client.Named.{update_by_name_apart}
use k8s_lite.Scheduler.Round.{
  Numbers, text_at, get_request, is_ready, parse_cpu, pod_fits_resources, feasible, select_node,
  bind, schedule_each,
}

module _ (numbers : Numbers) where
  request_zero : (pod : Pod) → get_request pod "cpu" ≡ "0"
  unfolding get_request
  request_zero pod = ground arith

  cpu_zero : (pod : Pod) → parse_cpu numbers (get_request pod "cpu") ≡ pos 0
  unfolding parse_cpu
  cpu_zero pod = rw (request_zero pod) numbers.parse_milli_zero

  -- A pod fits on a node exactly if the node is ready and its CPU capacity is not negative; what the
  -- pod asks for plays no part.
  pub pod_fits_resources_lem :
      (pod : Pod) (node : Node)
      → pod_fits_resources numbers pod node ≡ (
          is_ready node.status.conditions
          && not (ltb_ℤ (parse_cpu numbers (text_at "cpu" node.status.capacity)) (pos 0)))
  unfolding pod_fits_resources
  pod_fits_resources_lem pod node = ground (arith, cpu_zero pod)

  module _ ⦃json : Json⦄ ⦃env : Env json.Bytes⦄ where
    -- selectNode returns "" if no node fits, and otherwise the name of a node of the list that fits;
    -- it sends nothing and its index is never out of range.
    pub select_node_lem :
        (pod : Pod) (nodes : List Node) (w : Cluster)
        → ((feasible numbers pod nodes ≡ []) × (select_node numbers pod nodes w ≡ (ret "", w)))
          ⊎ ((node : Node) × Among node nodes
              × (pod_fits_resources numbers pod node ≡ true)
              × (select_node numbers pod nodes w ≡ (ret node.name, w)))
    unfolding select_node feasible
    select_node_lem pod nodes w = pick (keep (pod_fits_resources numbers pod) nodes) refl
      where
        pick :
            (fits : List Node)
            → keep (pod_fits_resources numbers pod) nodes ≡ fits
            → ((keep (pod_fits_resources numbers pod) nodes ≡ [])
                × (select_node numbers pod nodes w ≡ (ret "", w)))
              ⊎ ((node : Node) × Among node nodes
                  × (pod_fits_resources numbers pod node ≡ true)
                  × (select_node numbers pod nodes w ≡ (ret node.name, w)))
        pick [] e = inl (e, rw (e, select_node))
        pick (n ∷ ns) e =
            let len = length (n ∷ ns) in
            let i = env.intn w.clock len in
            let (node, g, m, f) =
              get_elem?-keep (pod_fits_resources numbers pod) nodes i
                (rw e (env.intn_lt w.clock len (omega arith))) in
            inr (node, m, f, rw (e, select_node) (ground (arith, rw e at g)))

    none_feasible :
        (pod : Pod) (nodes : List Node)
        → All (λ node. is_ready node.status.conditions ≡ false) nodes
        → feasible numbers pod nodes ≡ []
    unfolding feasible
    none_feasible pod [] h = refl
    none_feasible pod (n ∷ ns) h =
        ground (arith, pod_fits_resources_lem pod n, none_feasible pod ns h.1)

    none_selected :
        (pod : Pod) (nodes : List Node) (w : Cluster)
        → All (λ node. is_ready node.status.conditions ≡ false) nodes
        → select_node numbers pod nodes w ≡ (ret "", w)
    unfolding select_node
    none_selected pod nodes w h = rw (none_feasible pod nodes h) refl

    -- While no node is ready, scheduling any pods sends nothing and changes nothing.
    pub schedule_each_none_ready :
        (ps : List Pod) (nodes : List Node) (w : Cluster)
        → All (λ node. is_ready node.status.conditions ≡ false) nodes
        → schedule_each numbers ps nodes w ≡ (ret tt, w)
    unfolding schedule_each
    schedule_each_none_ready [] nodes w h = refl
    schedule_each_none_ready (p ∷ ps) nodes w h =
        ground (arith, none_selected p nodes w h, schedule_each_none_ready ps nodes w h)

    bind_apart :
        (pod : Pod) (name : String) (w : Cluster) (j : String)
        → IsApart pods j
        → view (bind numbers pod name w).1.store j ≡ view w.store j
    unfolding bind update_pod
    bind_apart pod name w j a =
        update_by_name_apart pods (record pod { spec = record pod.spec { node_name = name } }) w j a

    -- Scheduling a list of pods changes no object but pods, whatever the network does.
    pub schedule_each_apart :
        (ps : List Pod) (nodes : List Node) (w : Cluster) (j : String)
        → IsApart pods j
        → view (schedule_each numbers ps nodes w).1.store j ≡ view w.store j
    unfolding schedule_each
    schedule_each_apart [] nodes w j a = refl
    schedule_each_apart (p ∷ ps) nodes w j a = elim (select_node_lem p nodes w) [
      | inl (_, e) ↦ ground (arith, e, schedule_each_apart ps nodes w j a)
      | inr (node, _, _, e) ↦ ground (
        arith,
        e,
        bind_apart p node.name w j a,
        schedule_each_apart ps nodes w j a,
        schedule_each_apart ps nodes (bind numbers p node.name w).1 j a,
      )
    ]
