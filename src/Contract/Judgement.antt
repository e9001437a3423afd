-- ===== src/Contract/Judgement.antt =====
-- internal/contract/openapi.go: validateSchema beside `Conforms`.
mod Loops
mod Objects
mod Types
mod Steps
pub mod Total
