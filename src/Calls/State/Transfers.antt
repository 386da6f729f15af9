-- ===== src/Calls/State/Transfers.antt =====
-- The reports of a transfer by `CallState` of pkg/sip/analytics.go.
