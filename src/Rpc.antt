-- ===== src/Rpc.antt =====
-- The RPC interface: packages/bundler/src/BundlerServer.ts and its method handlers.
pub mod Logs
pub mod Server
pub mod Answers
pub mod Handler
pub mod Lookup
pub mod Debug
