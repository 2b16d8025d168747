-- ===== src/Auth.antt =====
-- auth.py: `Sessions` is SessionStore, and `Throttle` is LoginThrottle. A clock reading counts the
-- ticks of `time.time()`, of which there are `ticks` to a second; a reading may go back.
pub mod Sessions
pub mod Throttle
