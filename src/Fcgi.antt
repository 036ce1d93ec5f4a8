-- ===== src/Fcgi.antt =====
-- fcgi_state.c: the FastCGI messages, their name-value pairs, and the session that they make up.
pub mod Param
pub mod Protocol
pub mod Message
pub mod Build
pub mod Session
