-- ===== src/Tests.antt =====
-- The theorems at concrete inputs, and runs of the models, one module for each part.
mod Samples
mod ChunkingRuns
mod ProtocolRuns
mod OperationsRuns
mod UsageRuns
mod SessionRuns
mod DebugRuns
mod SerialRuns
mod StoreRuns
mod DhcpRuns
mod ProvisionRuns
mod SerialDeviceRuns
mod DebugChannelRuns
mod DataChannelRuns
mod LifecycleRuns
mod SelfDestructRuns
mod ContractRuns
mod NetmonRuns
mod ReconnectionRuns
mod StatusRuns
