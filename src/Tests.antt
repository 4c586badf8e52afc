-- ===== src/Tests.antt =====
-- Concrete inputs: tests of the definitions, and the theorems applied to them.
pub mod NameListTests
pub mod ReaperTests
pub mod SessionsTests
pub mod TitlesTests
pub mod RowsTests
pub mod TransportTests
pub mod NamesTests
pub mod ReleaseTests
