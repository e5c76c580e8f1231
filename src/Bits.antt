-- ===== src/Bits.antt =====
-- Bit operations at variables: one binary digit of a word, and how `&`, `|`, `~` and the shifts
-- act on it. The bit-level code of the operation regions and of the buffer fields rests on this.
mod Step
mod Digit
mod Mask
mod Align
pub use Step.*
unfoldable pub use Digit.{bit}
pub use Digit.*
pub use Align.*
pub use Mask.*
