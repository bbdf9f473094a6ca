-- ===== src/Sources.antt =====
-- internal/provider/data_source_*.go: how data sources load all pages of a list, and how they find
-- the one item that has a name. Pages is the loop over pages, Loads its instances, Lookup what
-- follows a load, Reads its instances. The struct of an item and its getters are generated: a type
-- and a function. The attributes that are set from the item that is found are left out.
pub mod Pages
pub mod Loads
pub mod Lookup
pub mod Reads
pub mod Complete
pub mod Unique
mod Tests
