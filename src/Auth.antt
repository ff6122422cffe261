-- ===== src/Auth.antt =====
-- internal/auth: the admin's sessions. Password hashing is calls of argon2 and base64.
pub mod Password
pub mod Sessions
