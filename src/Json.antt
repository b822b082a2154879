-- ===== src/Json.antt =====
-- src_common/json.h: the JSON builder and the flat JSON parser of the wire protocol.
pub mod Builder
pub mod Parser
pub mod Strings
pub mod Fuel
pub mod Nested
pub mod Fields
pub mod Values
pub mod RoundTrip
pub mod Objects
pub mod Setters
pub mod Lookup
