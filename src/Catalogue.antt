-- ===== src/Catalogue.antt =====
-- The validated texts of the catalogue, and collections of works: internal/domain/validate.go,
-- subject.go, collection.go and library_query.go.
pub mod Texts
mod Collections
mod Pages
