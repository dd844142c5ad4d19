-- ===== src/Kubelet/Agent/Groups.antt =====
-- The map runningPods of internal/kubelet/agent.go.
use k8s_lite.Prelude.{
  String, ◌≡◌, refl, ap, ◌∙◌, sym, List, [], ◌∷◌, ◌++◌, if◌then◌else◌, str_eq, eq_iff, keep, lookup,
  insert, lookup-insert, arith, Bool-cases, inl, inr,
}
use mathlib.Core.List.{append_assoc, append-nil}
use k8s_lite.Kubelet.Runtime.{ContainerInfo}
use k8s_lite.Kubelet.Agent.Round.{Running, containers_of, group, group_into}

-- The containers with the pod's name, in the order in which the runtime lists them.
abbrev pub named_for : String → List ContainerInfo → List ContainerInfo
named_for name = keep (λ c. str_eq c.pod_name name)

containers_of-insert :
    (name other : String) (cs : List ContainerInfo) (m : Running)
    → containers_of other (insert name cs m)
      ≡ (if str_eq name other then cs else containers_of other m)
unfolding containers_of
containers_of-insert name other cs m = ground (arith, lookup-insert name other cs m)

appended :
    (name : String) (c : ContainerInfo) (cs : List ContainerInfo) (m : Running)
    → (if str_eq c.pod_name name
          then containers_of c.pod_name m ++ c ∷ []
          else containers_of name m)
        ++ named_for name cs
      ≡ containers_of name m ++ named_for name (c ∷ cs)
appended name c cs m = elim (Bool-cases (str_eq c.pod_name name)) [
  | inl e ↦ rw e (
      append_assoc (containers_of c.pod_name m) (c ∷ []) (named_for name cs)
      ∙ ap (λ n. containers_of n m ++ c ∷ named_for name cs) ((eq_iff _ _).0 e))
  | inr e ↦ rw e refl
]

containers_of-group_into :
    (name : String) (m : Running) (cs : List ContainerInfo)
    → containers_of name (group_into m cs) ≡ containers_of name m ++ named_for name cs
unfolding group_into
containers_of-group_into name m [] = sym (append-nil _)
containers_of-group_into name m (c ∷ cs) =
    containers_of-group_into name (insert c.pod_name (containers_of c.pod_name m ++ c ∷ []) m) cs
    ∙ rw (containers_of-insert c.pod_name name (containers_of c.pod_name m ++ c ∷ []) m)
        (appended name c cs m)

-- The containers that a kubelet finds for a pod are exactly those whose label names it, in the order
-- of the runtime's list.
pub containers_of-group :
    (name : String) (cs : List ContainerInfo) → containers_of name (group cs) ≡ named_for name cs
unfolding group containers_of lookup
containers_of-group name cs = containers_of-group_into name [] cs
