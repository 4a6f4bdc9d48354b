-- ===== src/Tests.antt =====
-- Runs on concrete inputs.
mod ProviderIds
mod Caches
mod RobotClients
mod BalancerCalls
mod TargetSync
mod Creation
mod BalancerProperties
mod RouteCalls
mod ServiceSync
mod InstanceCalls
mod Settings
mod ManagedCertificates
