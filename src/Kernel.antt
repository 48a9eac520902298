-- ===== src/Kernel.antt =====
-- The kernel, kernel/src: processes, their queues and semaphores, resources, interfaces and the console.
pub mod State
pub mod Queues
pub mod Resources
pub mod Steps
pub mod Events
pub mod Balanced
pub mod Released
pub mod Planned
pub mod Progress
pub mod Reported
pub mod Safe
pub mod Killed
pub mod Instances
pub mod Pids
pub mod Whereabouts
pub mod OnePlace
pub mod Ended
pub mod IoFunction
pub mod Delivered
pub mod Console
pub mod Typed
mod Tests
