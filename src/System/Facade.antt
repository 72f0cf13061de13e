-- ===== src/System/Facade.antt =====
-- src/system/tpc.cpp, src/system/client/client.cpp and src/system/client/subscription.cpp: the facade
-- TPC as a whole. Handlers has the events of the client that it passes on, Factory its creation with all
-- of its parts, and Queries what it asks of the analytics manager.
pub mod Handlers
pub mod Factory
pub mod Queries
pub mod Events
pub mod Creation
pub mod Export
pub mod Lifetime
pub mod Fields
mod Tests
mod LifetimeTests
