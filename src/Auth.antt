-- ===== src/Auth.antt =====
-- Authentication: src/auth/mod.rs, src/auth/sigv4.rs and src/handlers/admin.rs.
pub mod Crypto
pub mod Compare
pub mod SigV4
pub mod Query
pub mod Middleware
pub mod Presign
mod Tests
