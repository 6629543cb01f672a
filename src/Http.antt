-- ===== src/Http.antt =====
-- The HTTP layer of core/include/katana/core/http.hpp and core/src/http.cpp.
pub mod Method
pub mod Ci
pub mod Headers
pub mod Parser
pub mod Message
mod Tests
