-- ===== src/Toys.antt =====
-- What a toy can do, and the ranges of its functions: lovensepy/_constants.py, toy_utils.py,
-- toy_type_defaults.py and _command_utils.py.
pub mod Constants
pub mod Features
pub mod Commands
pub mod Known
pub mod Ranges
mod Tests
