-- ===== src/Gpio.antt =====
-- components/wdc_hal: the GPIO layer over the driver of the chip.
pub mod Driver
pub mod Hal
pub mod Slots
pub mod Entry
pub mod Safe
