-- ===== src/Validity/Chain.antt =====
-- Blocks accepted to the window and a block verified against it: no container comes twice.
