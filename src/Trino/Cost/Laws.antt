-- ===== src/Trino/Cost/Laws.antt =====
-- What the estimate of a cost comes to.
