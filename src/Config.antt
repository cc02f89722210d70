-- ===== src/Config.antt =====
-- core/config/config.go: the configuration after it was parsed, and its validation. A nil pointer
-- or slice is `none`; an int and a duration are integers. A validation gives the first error.
pub mod Endpoint
pub mod Whole
