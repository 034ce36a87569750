-- ===== src/Circuit/Core/Tests.antt =====
-- The padding theorems at a concrete circuit, with the rational product for the threshold.
