-- ===== src/Cli.antt =====
-- cli/main.cpp.
pub mod Sizes
pub mod Args
pub mod Commands
pub mod SizeText
pub mod Render
pub mod Gpu
pub mod Exits
pub mod ReadBack
