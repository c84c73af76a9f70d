-- ===== src/MotorGroupHold.antt =====
-- src/open_sprite_runtime/motor_group_hold.py: the powered hold of a fixed group of motors on one bus.
-- As for the hold of one motor, a run is a session: what the operating system does with each frame,
-- what `receive` answers until each deadline, and what the clock says.
pub mod Session
pub mod Supervise
pub mod Groups
pub mod Frozen
pub mod Stops
pub mod Rounds
pub mod Trail
pub mod Order
pub mod Drive
pub mod Whole
