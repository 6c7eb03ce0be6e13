-- ===== src/Diag.antt =====
-- components/wdc_diag: the ring of log records, the metrics and the breadcrumb of the last fault.
pub mod Log
pub mod Last
