-- ===== src/Executor.antt =====
-- src/executor: the evaluation of expressions, the scalar functions, and the rows of a query.
mod Tests
pub mod Like
pub mod Operators
pub mod Functions
pub mod Eval
pub mod Rows
pub mod Select
pub mod Joins
pub mod Aggregates
pub mod Statements
