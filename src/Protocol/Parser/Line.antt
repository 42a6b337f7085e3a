-- ===== src/Protocol/Parser/Line.antt =====
-- stub
