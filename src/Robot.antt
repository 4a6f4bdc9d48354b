-- ===== src/Robot.antt =====
-- internal/robot: the wrappers around the client of the Robot API. The API's client and its error
-- codes are parameters.
pub mod RateLimit
pub mod RateLimitLaws
pub mod ServerCache
pub mod ServerCacheLaws
