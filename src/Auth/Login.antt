-- ===== src/Auth/Login.antt =====
-- Who gets tokens from a login.
