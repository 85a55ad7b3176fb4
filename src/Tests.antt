-- ===== src/Tests.antt =====
-- Concrete inputs, and a run of each stated property on one of them.
mod Fixtures
mod Services
mod PolicyRuns
mod WorkflowRuns
mod QueueRuns
mod WorkerRuns
mod SupportRuns
mod IngressRuns
mod Payloads
mod ChatwootRuns
mod CatalogRuns
mod ModelRuns
