-- ===== src/Domain.antt =====
-- The classes of src/domain: the three indexes, `Txid`, `Txref` and `Did`.
pub mod BlockHeight
pub mod TransactionIndex
pub mod Vout
pub mod Txid
pub mod Txref
pub mod Did
