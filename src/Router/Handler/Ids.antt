-- ===== src/Router/Handler/Ids.antt =====
-- The IDs that conversations get.
