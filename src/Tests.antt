-- ===== src/Tests.antt =====
-- Runs of the modelled code on concrete inputs, and each theorem at an input that meets its
-- hypotheses.
mod Core
mod Eval
mod Codec
mod Page
mod Mvcc
mod Memstore
mod Session
mod Executor
mod Parser
pub mod HeapFile
mod Table
