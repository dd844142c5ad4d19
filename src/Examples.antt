-- ===== src/Examples.antt =====
-- Concrete runs of the model: the theorems at inputs where their hypotheses hold.
mod World
mod StoreRuns
mod ServerRuns
mod RouteRuns
mod ClusterRuns
mod LoopRuns
mod ServiceRuns
mod RoundRuns
mod SettlingRuns
mod RollingRuns
mod KubeletRuns
mod CommandRuns
mod ProxyRuns
mod ElectionRuns
mod WatchRuns
