-- ===== src/SingleJointHold.antt =====
-- src/open_sprite_runtime/single_joint_hold.py: what the powered hold and the powered motion of one
-- motor share, which the
-- source writes twice, and the two with their checks and reports. Every terminating run is a session: what the operating
-- system does with each frame, what `receive` answers until each deadline, and what the clock says.
-- `sleep` and the messages of exceptions are left out.
pub mod Session
pub mod Supervise
pub mod Trail
pub mod Calls
pub mod Runs
pub mod Trajectory
pub mod Motion
pub mod Order
pub mod Shutdown
pub mod Guards
pub mod Passed
pub mod Moved
