-- ===== src/Go/Json.antt =====
-- `encoding/json`: the values that the program marshals, the text that `json.Marshal` makes of
-- them, and the reader of RFC 8259 for such texts.
pub mod Text
pub mod Number
pub mod TextRead
pub mod Values
pub mod Read
pub mod RoundTrip
pub mod Whole
pub mod Fuel
pub mod Enough
pub mod Tags
pub mod Objects
pub mod Decode
