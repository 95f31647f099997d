-- ===== src/Venues.antt =====
-- internal/modules/venues: slugs, and the changes of an owner's venues.
pub mod Slug
pub mod Model
pub mod Changes
pub mod Listing
