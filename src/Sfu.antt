-- ===== src/Sfu.antt =====
-- internal/media/sfu: the quality layers of a simulcast track, and the controller that picks a layer for
-- each subscriber from samples of its network.
pub mod Quality
pub mod Floats
pub mod Adaptive
pub mod Rating
pub mod Signals
pub mod Decide
pub mod Layers
pub mod Raw
pub mod Hysteresis
pub mod History
pub mod Streams
pub mod Simulcast
pub mod Closing
mod Examples
mod Runs
