-- ===== src/Examples.antt =====
-- The theorems at concrete inputs, on decimal fixed point.
mod Data
mod Bank
mod Interpolation
mod Tables
mod Launcher
mod FuelCell
mod Bench
mod Kernels
mod Plant
mod Splits
mod Scripts
