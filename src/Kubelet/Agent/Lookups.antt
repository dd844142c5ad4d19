-- ===== src/Kubelet/Agent/Lookups.antt =====
-- Which containers the map runningPods of internal/kubelet/agent.go holds at a name.
use mathlib.Core.Logic.Or
use mathlib.Core.List.{Mem, mem-cons, mem-cons_self, mem-cons_of_mem, not-mem-nil}
use k8s_lite.Prelude.{
  String, ◌≡◌, inl, inr, refl, ap, sym, ◌∙◌, Option, none, some, List, [], ◌∷◌, str_eq, eq_iff,
  Bool-cases, lookup, some_inj,
}
use k8s_lite.Kubelet.Runtime.{ContainerInfo}
use k8s_lite.Kubelet.Agent.Round.{Running, containers_of}
use k8s_lite.Kubelet.Agent.Groups.{named_for}

abbrev items : Option (List ContainerInfo) → List ContainerInfo
items o = elim o [ none ↦ [] | some cs ↦ cs ]

found_of_mem :
    (o : Option (List ContainerInfo)) (c : ContainerInfo) → Mem c (items o) → o ≡ some (items o)
found_of_mem none c k = absurd (not-mem-nil k)
found_of_mem (some cs) c k = refl

pub lookup_of_containers :
    (name : String) (m : Running) (c : ContainerInfo)
    → Mem c (containers_of name m)
    → lookup name m ≡ some (containers_of name m)
unfolding containers_of
lookup_of_containers name m = found_of_mem (lookup name m)

pub mem_of_lookup :
    (name : String) (cs : List ContainerInfo) (m : Running)
    → lookup name m ≡ some cs
    → Mem (name, cs) m
unfolding lookup
mem_of_lookup name cs [] e = cc
mem_of_lookup name cs ((n, ds) ∷ m) e = elim (Bool-cases (str_eq n name)) [
  | inl f ↦ rw (sym ((eq_iff n name).0 f), some_inj ds cs (sym (rw f refl) ∙ e)) mem-cons_self
  | inr f ↦ mem-cons_of_mem _ (mem_of_lookup name cs m (sym (rw f refl) ∙ e))
]

pub mem-named_for :
    (name : String) (cs : List ContainerInfo) (c : ContainerInfo)
    → Mem c cs
    → c.pod_name ≡ name
    → Mem c (named_for name cs)
mem-named_for name [] c m e = absurd (not-mem-nil m)
mem-named_for name (d ∷ cs) c m e =
    Or.elim (hlevel) (mem-cons.0 m)
      (λ q. rw ((eq_iff d.pod_name name).1 (ap (λ x. x.pod_name) (sym q) ∙ e)) (rw q mem-cons_self))
      (λ q. elim (Bool-cases (str_eq d.pod_name name)) [
        | inl f ↦ rw f (mem-cons_of_mem _ (mem-named_for name cs c q e))
        | inr f ↦ rw f (mem-named_for name cs c q e)
      ])
