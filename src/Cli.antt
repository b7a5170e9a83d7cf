-- ===== src/Cli.antt =====
-- crates/shpx-cli, and the traits of crates/shpx-core/src/driver.rs that it drives.
pub mod Driver
pub mod Registry
pub mod Convert
