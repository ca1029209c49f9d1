-- ===== src/Token.antt =====
-- contracts/token: WattToken.ts and libraries/SafeMath.ts.
-- A balance is an integer. A missing balance or allowance is 0, as `get(..) || 0` reads it. The
-- constants `name`, `symbol` and `decimals` take part in no operation and are left out.
mod Defs
mod Total
pub mod Supply
pub mod Moves
pub mod Access
mod Tests
unfoldable pub use Defs.*
