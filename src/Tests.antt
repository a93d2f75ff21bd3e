-- ===== src/Tests.antt =====
-- Runs of the model on small inputs, and an instance of each theorem.
mod Samples
mod Filters
mod Incidents
mod Handlers
mod Rotations
mod Configuration
mod Registered
mod Identified
mod Listening
