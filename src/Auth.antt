-- ===== src/Auth.antt =====
-- auth/: the access tokens of users, where they are kept, and the HTTP handler that asks for them.
pub mod Tokens
pub mod Jwt
mod Tests
