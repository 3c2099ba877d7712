-- ===== src/Router.antt =====
-- cmd/router/main.go: the router, from its flags to its handlers.
pub mod Pick
pub mod Poll
pub mod Handler
pub mod Options
pub mod Running
