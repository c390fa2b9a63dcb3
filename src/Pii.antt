-- ===== src/Pii.antt =====
-- apps/api/src/validation/pii: `Detector` the matches in a text, `Redactor` the masks and the walk over
-- the parameters, `Order` the order of the matches, `Apart` and `Found` which
-- they are, `Faithful` what the walk leaves unchanged.
pub mod Detector
pub mod Redactor
pub mod Faithful
pub mod Order
pub mod Apart
pub mod Found
