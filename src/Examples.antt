-- ===== src/Examples.antt =====
-- Concrete inputs at which the theorems of the library apply, and tests of the definitions on them.
pub mod Sample
mod ClientExamples
mod FieldExamples
mod WireExamples
mod MessageExamples
mod EvaluateExamples
mod ProductsExamples
mod ProtocolExamples
mod ParamsExamples
mod ServerExamples
mod SessionExamples
mod TrapdoorExamples
