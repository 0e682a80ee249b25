-- ===== src/Util.antt =====
-- evaluation/src/site/resources/analysis/scripts/util.js, one module for each family of functions.
pub mod Arrays
pub mod Groups
pub mod Alphanum
pub mod HashCode
pub mod Strings
pub mod Color
pub mod Files
pub mod Convert
pub mod Layout
pub mod Distance
