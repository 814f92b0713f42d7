-- ===== src/Phone.antt =====
-- zowpy/utils/phone.py: the country of a phone number.
pub mod Codes
pub mod Country
mod Examples
