-- ===== src/Route.antt =====
-- The router of core/include/katana/core/router.hpp: path patterns, path parameters, middleware and
-- dispatch.
pub mod Params
pub mod Path
pub mod Pattern
pub mod Middleware
pub mod Dispatch
pub mod Allow
mod Tests
