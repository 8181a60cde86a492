-- ===== src/Firmware.antt =====
-- The firmware: the I2C seam of firmware/i2c.h, the simulated sensor, the driver, the UART,
-- the hardware bus, the boot and the main loop.
pub mod Bus
pub mod Sim
pub mod Adxl345
pub mod Device
pub mod Uart
pub mod Node
pub mod Stellaris
pub mod Startup
