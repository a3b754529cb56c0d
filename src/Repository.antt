-- ===== src/Repository.antt =====
-- backend/app/infrastructure/task_repository.py: one module for each group of its methods. A Lua
-- script is one function of the store, since Redis runs it without interruption.
pub mod Errors
pub mod Status
pub mod Update
pub mod Ingest
pub mod Cut
pub mod Tracking
pub mod Progress
