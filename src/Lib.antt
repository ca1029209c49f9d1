-- ===== src/Lib.antt =====
-- CurrentDao contracts: the contracts of the DAO and what holds of them.
--
-- The program is a set of TypeScript classes under contracts/, each a contract whose private fields
-- are its storage. A call takes the name of the caller as an argument, checks it, and writes; it
-- returns or throws, and JavaScript rolls nothing back after a throw.
--
-- Base/Calls.antt models such a call: a function from the state to an outcome and a new state, where
-- a throw keeps what was written before it. Base/Tables.antt models Map<string, V> and Set<string> as
-- lists in the order of insertion; Base/Int.antt the numbers; Base/Text.antt the strings.
--
-- Which file models which part (a field or a method keeps its name, in snake case):
--   Token, in Token/Defs.antt: contracts/token/WattToken.ts and libraries/SafeMath.ts.
--   Timelock, in Timelock/Defs.antt: contracts/timelock/TimelockController.ts with TimelockLib.hash and
--     TimelockLib.isReady.
--   MultiSig, in MultiSig/Defs.antt: contracts/multisig/DAOMultiSig.ts with MultiSigLib.
--   Governance, in Governance/Defs.antt: contracts/dao/Governance.ts with VotingLib, QuadraticVoting and
--     ProposalStructure. It reads a token, which it holds in a field; Governance/Methods.antt lets any
--     token take its place between calls.
--   Reentrancy, in Reentrancy/Defs.antt: contracts/security/ReentrancyGuard.ts with ReentrancyDetector,
--     CallStackMonitor and StateProtection. A protected body is a call, which runs to its end before any
--     other starts.
--   Acl, in Acl/Defs.antt: contracts/acl/governance/ACLGovernance.ts, the proposals of the access control
--     list, for a payload of any type. The clock is a natural number of milliseconds, and the text that
--     the source makes of Math.random is an argument.
--   Permissions, in Permissions/Defs.antt: contracts/acl/permissions/PermissionManager.ts; with
--     ACLLib.normalizeId in Acl/Ids.antt.
--   Roles, in Roles/Defs.antt: contracts/acl/roles/RoleManager.ts with ACLLib.collectRoleLineage.
--   Bridge, in Bridge/Defs.antt: contracts/bridge/CrossChainBridge.ts, MultiChainValidator.ts and
--     BridgeLib.ts, for any type of token: Bridge/Interface.antt says what is assumed of a token and of
--     the arithmetic of the fee, whose sources are not in the repository, and Bridge/Watt.antt shows
--     that WattToken is such a token. `hash_text` keeps the 32-bit wrap of the source's hash.
--   Escrow: contracts/escrow/EnergyEscrow.ts. Escrow/State.antt has its fields and what every method
--     starts with, Escrow/Trading.antt, Escrow/Disputes.antt and Escrow/Admin.antt the methods. Of
--     libraries/EscrowLib.ts, Escrow/Checks.antt has the checks, Escrow/Text.antt the text functions and
--     Escrow/Limiter.antt the rate limiter; Escrow/Trade.antt is structures/TradeStructure.ts. The ids
--     are natural numbers, and an amount is an exact fraction. The handlers of events are taken to
--     return and not to call the contract. Escrow/Steps.antt splits the methods into writes, and what
--     those keep holds after any calls.
--   Liquidity, in Liquidity/Defs.antt: contracts/liquidity/MultiChainLiquidityPool.ts with its
--     bridges/CrossChainBridge.ts and rebalancing/RebalancingEngine.ts. A bridge has two halves, up to its
--     timeout and at it; Liquidity/Bridging.antt lets the halves of bridges interleave.
--   Staking, in Staking/Defs.antt: contracts/staking/governance/PoolGovernance.ts.
--   Access: contracts/acl/AccessControlList.ts, hasAccess in Access/Defs.antt and executeEmergencyAction in
--     Access/Emergency.antt, with what they call of Roles and Permissions. Access/Rights.antt says what
--     a right is without the tests of the code; Access/Grants.antt, Access/Held.antt and
--     Roles/Merged.antt lead from one to the other.
-- The contracts here do not call one another otherwise.
-- In Token, Timelock, MultiSig, Governance, Acl, Bridge and Escrow, `Method` lists the calls that
-- write, `after` is the state that such a call leaves, and `Reach` the states that any sequence of
-- calls by anybody leads to from a constructor's.
--
-- Bounds. A `number` is an integer: NaN, fractions, and integers from 2 ^ 53 on, where a double is
-- no longer exact, are left out; `Math.floor(Math.sqrt(n))` is an exact integer root. `Date.now()`
-- is an argument of each call that reads it, so the clock stands still within a call and is
-- arbitrary from call to call. The fuel of `show_number` is one round more than the number has
-- units, which is more than it has digits; that of `lineage` is one round more than there are
-- roles, which Roles/Lineage.antt shows to be enough; that of `strip_scripts` is the length of the
-- text, of which each round takes a character or more. `normalize_id` reads ASCII; any other
-- character becomes `_`. Strings are read by characters; JavaScript counts UTF-16 units, which is
-- the same on text of the basic plane.
--
-- Not modelled: the governance and the bootstrap of contracts/acl/AccessControlList.ts, withdrawals and
-- rewards of the liquidity pool (roots and decimal fractions of doubles), console output, getters that
-- return a field, and the other contracts of the repository, which PROJECT.json lists.
pub mod Base
pub mod Token
pub mod Timelock
pub mod MultiSig
pub mod Governance
pub mod Reentrancy
pub mod Acl
pub mod Permissions
pub mod Roles
pub mod Bridge
pub mod Escrow
pub mod Liquidity
pub mod Staking
pub mod Access
