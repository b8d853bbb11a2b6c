-- ===== src/Fees.antt =====
-- hypersdk/fees and hypersdk/internal/fees: fee dimensions, the choice of a largest set, and the
-- manager that prices blocks.
pub mod Dimensions
pub mod Largest
pub mod Manager
