-- ===== src/Gateway/Tests/Paid.antt =====
-- The bill is paid in one transaction, two blocks deep.
