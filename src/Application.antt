-- ===== src/Application.antt =====
-- src/application: the services that the commands call.
pub mod Compatibility
pub mod CredentialTransaction
pub mod LocalTargetGate
pub mod ProfileService
pub mod RemoteTargetGate
pub mod RestoreEngine
pub mod RestoreService
pub mod PushService
pub mod PullService
pub mod CacheService
pub mod DumpService
