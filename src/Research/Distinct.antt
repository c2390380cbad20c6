-- ===== src/Research/Distinct.antt =====
-- internal/research/research.go: the queries that `GenerateQueries` returns.
