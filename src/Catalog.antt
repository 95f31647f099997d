-- ===== src/Catalog.antt =====
-- internal/modules/catalog: the menu of a venue, which only its owner may change.
pub mod Model
pub mod Order
pub mod Categories
pub mod MenuItems
pub mod Guards
pub mod Complete
pub mod Reordered
pub mod Deletion
pub mod Listings
