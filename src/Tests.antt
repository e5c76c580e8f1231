-- ===== src/Tests.antt =====
-- Tests: the theorems applied at concrete inputs, and the data that they use.
pub mod Data
pub mod Nodes
pub mod Memory
pub mod HashTable
pub mod AmlName
pub mod Namespace
pub mod OpRegion
pub mod PcBios
pub mod BufferField
pub mod Resource
pub mod Operands
pub mod Ec
pub mod Objects
pub mod Convert
pub mod AmlCode
pub mod Sync
pub mod ExecStack
pub mod Reduce
