-- ===== src/Bits.antt =====
-- The bits of `|` and `&` on unsigned integers of any width, for the arithmetic of
-- lumbre_next_power_of_2 and the `& mask` of lumbre_ringbuf_write.
mod Digits
mod Laws
mod Tables
pub use Digits.{or_digit, and_digit}
pub use Laws.*
pub use Tables.{tag_map, tag_str, hex_pair}
