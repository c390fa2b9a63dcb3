-- ===== src/Values.antt =====
-- The dynamic values of the source and what the JavaScript engine does with them.
pub mod Json
pub mod Runtime
pub mod Coerce
pub mod Printed
