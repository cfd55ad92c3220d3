-- ===== src/Runtime.antt =====
-- The graph runtime: domain/execution/services/graph_runtime/ and adapters/temporal/. One node step
-- is shared by two engines, the in-process executor and the Temporal workflow.
pub mod Types
pub mod Fallback
pub mod Edges
pub mod Records
pub mod Step
pub mod Executor
pub mod Scan
pub mod Safety
pub mod Settling
pub mod Workflow
pub mod Counters
pub mod Agreement
pub mod Examples
