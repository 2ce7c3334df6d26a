-- ===== src/Gateway.antt =====
-- execution/packages/execution-gateway-protocol/src and execution/apps/execution-gateway/src/registry.ts
pub mod Wire
pub mod Protocol
pub mod Registry
pub mod Credentials
pub mod Secrets
pub mod Revocation
