-- ===== src/Lease/ReadWrite/Exclusion.antt =====
-- Readers and writers exclude each other, as the server sees it.
pub mod Frame
pub mod WriterHolds
pub mod WriterGrants
pub mod Writer
pub mod ReaderHolds
pub mod ReaderGrants
pub mod Reader
