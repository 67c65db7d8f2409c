-- ===== src/Tests.antt =====
-- Concrete instances of the parameters, and the theorems applied to them.
mod Node
mod Fixed
mod Amounts
mod Txids
mod Branches
mod Networks
mod Retries
mod OpReturn
mod Facade
mod Trees
mod Unspents
mod Programs
mod Spending
mod Docs
mod Serving
mod Chain
mod Reordered
mod Composition
mod Elsewhere
mod CommandLine
mod Given
