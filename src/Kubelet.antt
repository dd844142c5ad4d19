-- ===== src/Kubelet.antt =====
-- internal/kubelet: the agent of one node, over a container runtime and a prober.
pub mod Runtime
pub mod Prober
pub mod Agent
