-- ===== src/Security.antt =====
-- Rate limits, the login lockout and the revocation of access tokens
-- (app/core/security_controls.py).
pub mod Keys
pub mod Store
pub mod RateLimit
pub mod Revocation
