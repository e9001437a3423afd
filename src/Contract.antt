-- ===== src/Contract.antt =====
-- internal/contract/openapi.go: the OpenAPI contract and the validation of response rules against it.
pub mod Schema
pub mod Document
pub mod Pointer
pub mod Route
pub mod Errors
pub mod Enum
pub mod Additional
pub mod Validate
pub mod Integers
pub mod Fuel
pub mod Decides
pub mod Conforms
mod Verdicts
mod Typed
pub mod Judgement
pub mod Rule
pub mod Load
