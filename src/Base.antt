-- ===== src/Base.antt =====
-- Names that the modules share: the libraries', passed on, and those of the children.
pub mod Tests
pub mod Lists
pub mod Int
pub mod Text
pub mod Dict
pub mod Result
