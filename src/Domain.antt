-- ===== src/Domain.antt =====
-- backend/app/domain: the enumerations, the stage machine, and the numbers of the schemas.
pub mod Enums
pub mod Floats
pub mod Stages
pub mod Schemas
