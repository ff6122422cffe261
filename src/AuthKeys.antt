-- ===== src/AuthKeys.antt =====
-- internal/authkeys: the `authorized_keys` file of sshd.
pub mod Render
