-- ===== src/Common.antt =====
-- What every layer shares, src/common: the logical types and the runtime values.
pub mod LogicalType
pub mod Value
pub mod Numerics
