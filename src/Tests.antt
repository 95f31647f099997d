-- ===== src/Tests.antt =====
-- Checked examples: one platform on which the hypotheses of the theorems hold, and the theorems
-- applied to runs on it.
mod Platform
mod Scene
mod SecurityRuns
mod VenueRuns
mod WorkforceRuns
mod AccountRuns
mod CatalogRuns
mod LoginRuns
mod OrderRuns
mod Web
mod HttpRuns
mod StartRuns
