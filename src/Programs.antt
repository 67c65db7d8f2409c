-- ===== src/Programs.antt =====
-- The four programs: `main` of src/txid2txref.cpp, src/createBtcrDid.cpp, src/didResolver.cpp and
-- src/didVerifier.cpp.
pub mod Statuses
pub mod Composition
pub mod Elsewhere
pub mod Txid2txref
pub mod CreateBtcrDid
pub mod DidResolver
pub mod DidVerifier
