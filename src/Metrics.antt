-- ===== src/Metrics.antt =====
-- src/metrics.h: labels, counters, histograms and the registry that holds them.
pub mod Labels
pub mod Counter
pub mod Histogram
pub mod Objects
pub mod Registry
pub mod Tests
