-- ===== src/Metrics.antt =====
-- core/metrics: the registry, counters and histograms of the /metrics endpoint, in the text
-- exposition format. Maps are association lists. Writing a line to the client may fail.
pub mod Labels
pub mod Counter
pub mod Histogram
pub mod Sorting
pub mod Registry
pub mod Recorder
