-- ===== src/Kubelet/Agent/Reports.antt =====
-- The status that reconcilePod of internal/kubelet/agent.go reports at its end.
use k8s_lite.Prelude.{Bool, ◌&&◌, List, str_eq}
use k8s_lite.Api.Pods.{Pod}
use k8s_lite.Kubelet.Runtime.{Runtime, ContainerInfo}
use k8s_lite.Kubelet.Prober.{Prober}
use k8s_lite.Kubelet.Agent.Round.{Kubelet, new_phase}

-- The pod has the phase that its containers call for, and no address to report.
abbrev pub is_current : List ContainerInfo → Pod → Bool
is_current running pod = str_eq pod.status.phase (new_phase running) && str_eq pod.status.pod_ip ""
