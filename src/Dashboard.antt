-- ===== src/Dashboard.antt =====
-- services/tui-dash: the terminal dashboard.
pub mod State
pub mod ApiClient
pub mod Mock
pub mod Keys
pub mod Demo
pub mod Tests
