-- ===== src/Tests.antt =====
-- Examples of the theorems on concrete data.
mod Numbers
mod Comparisons
mod Collector
mod Generations
mod Deletions
mod Hierarchy
mod Storage
mod Nesting
mod ValueCells
mod Execution
mod Interpreter
mod Instructions
mod Variables
mod Names
mod Stores
mod Creations
mod Methods
