-- ===== src/Http.antt =====
-- acmed/src/http.rs: requests to an endpoint, with its rate limits, its nonce and the retries.
pub mod Client
pub mod Requests
pub mod Frame
pub mod Nonce
pub mod Answer
pub mod Budget
