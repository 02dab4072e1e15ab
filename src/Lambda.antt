-- ===== src/Lambda.antt =====
-- src/cfn/persistence/lambda_code/: the functions that a customer's stack runs while it is made.
pub mod Respond
pub mod Aurora
pub mod Preflight
mod Examples
