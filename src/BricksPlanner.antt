-- ===== src/BricksPlanner.antt =====
-- glusterd2/bricksplanner: where the bricks of a volume go that is given by its size.
pub mod Request
pub mod Redundancy
pub mod Layout
pub mod Devices
pub mod Allocate
pub mod Replace
mod Fixtures
mod Scenarios
