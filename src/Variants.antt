-- ===== src/Variants.antt =====
-- The two builds of the field parsers compared: Modern.antt and Legacy.antt.
pub mod Headers
pub mod Params
pub mod Texts
pub mod Requests
