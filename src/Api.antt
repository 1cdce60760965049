-- ===== src/Api.antt =====
-- What the server answers: the serialised documents and the errors.
pub mod Documents
pub mod Errors
