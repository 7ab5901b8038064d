-- ===== src/Tests.antt =====
-- The definitions run on the sample, and the theorems applied to it.
pub mod Run
pub mod Nodes
pub mod References
pub mod Lists
pub mod Requests
pub mod Client
pub mod Browse
pub mod Pages
pub mod Document
pub mod Encoder
pub mod Program
pub mod Lifetimes
