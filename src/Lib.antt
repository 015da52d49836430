-- ===== src/Lib.antt =====
-- Octarine settlement on Soroban: a model of the contracts, and what they promise.
--
-- The program settles trades in tokenised funds. Makers and takers sign orders off-chain; the
-- settlement contract (contracts/rfq) checks the signatures, prices the trade by the time until the
-- fund redeems, moves the tokens and books what was filled. Sellers can also escrow tokens in it as
-- Dutch listings. The contracts share fixed-point arithmetic, redemption dates and a timelock
-- (crates/common), the order types (crates/orders) and share accounting (crates/shares). A facility's
-- holders who cannot be paid at once wait in a queue (contracts/queue). A redemption vault
-- (contracts/redemption_vault) pools a fund's units into batches, redeems them with the issuer and
-- pays whoever then holds the batch's claim token. A cross-chain contract
-- (contracts/crosschain_settle) escrows the RWA of a fill whose maker pays from another chain. A vault
-- (contracts/vault) issues shares against one asset and puts idle money into venues.
--
-- Files, and the code that each models:
--   Prelude    results with the host's traps, storage maps, ℤ over the native ℕ, i128 and uint
--   Types      crates/common/src/types.rs
--   Math       crates/common/src/math.rs (mul_div, mul_div_ceil); proofs in Math/Bounds and
--              Math/Rounding
--   Schedule   crates/common/src/schedule.rs (is_valid, seconds_for); proofs in Schedule/Horizon
--   Timelock   crates/common/src/timelock.rs (init, submit, take, revoke); proofs in Timelock/Delay
--   Orders     crates/orders/src/lib.rs
--   Host       what the contracts rely on and do not implement: the ledger, authorisation, tokens,
--              oracles, hashing, serialisation, signatures
--   Rfq        contracts/rfq/src: Rfq/Types (types.rs, errors.rs), Rfq/Storage (storage.rs),
--              Rfq/Hash (hash.rs), Rfq/Price (price.rs), and lib.rs in Rfq/Checks (validation),
--              Rfq/Tokens (deliver, pay), Rfq/Orders (fill_rfq_order, fill_fixed_order),
--              Rfq/Listings (Dutch orders) and Rfq/Admin (settings, keepers, pushed prices). The
--              entry points set_keeper, set_oracle and set_schedule are allow_keeper,
--              configure_oracle and schedule_asset there, since the storage has those names.
--   The proofs about Rfq: Rfq/Guards, Rfq/Measured and Rfq/Settles read a successful call as the
--   facts it established; Rfq/Books, Rfq/Agreement, Rfq/Quotes and Rfq/Fill state what a fill
--   guarantees; Rfq/Dutch, Rfq/Sales and Rfq/Creation do so for listings; Rfq/Pushes and Rfq/Shifts
--   say what keepers may do; Rfq/Frames, Rfq/Steps, Rfq/Effects, Rfq/Lifetime and Rfq/Totals are about
--   any sequence of calls.
--   Shares     crates/shares/src/lib.rs, the share accounting of the vault and the facility: balances,
--              allowances and freezes in Shares, the fee and the conversions in Shares/Fees, the token
--              interface in Shares/Token; proofs in Shares/Moves, Shares/Supply, Shares/Rates,
--              Shares/Dilution and Shares/Mark
--   Queue      contracts/queue/src/lib.rs (request, process, cancel): the loop of `process` is rounds,
--              one turn for each position between the head and the tail, so it needs no fuel; proofs
--              in Queue/Turns, Queue/Payments (what is redeemed), Queue/Service and Queue/Order
--   Redemption contracts/redemption_vault/src/lib.rs: Redemption/Types and Redemption/State (the
--              stored state), Redemption/Batches (the batches as a list), Redemption/Outside (claim
--              tokens, accounts, verifier and deployer, which are called), Redemption/Holders
--              (request_redeem, cancel, claim), Redemption/Calls (calls from an account),
--              Redemption/Sending (redeem_batch, withdraw_batch), Redemption/Settling (settle,
--              reopen, settle_manual), Redemption/Admin (deployment, accounts, governance,
--              claim_value). Redemption/Machine is the state machine of a batch;
--              Redemption/Tallies, Redemption/Holding, Redemption/Leaving and Redemption/Returning
--              relate the entry points to it, and Redemption/Entry and Redemption/Refinement put them
--              together; Redemption/Valid, Redemption/Changes, Redemption/Keeps and
--              Redemption/Lifetime are about its invariant, Redemption/Payouts and Redemption/Floor
--              about the amounts.
--   Crosschain contracts/crosschain_settle/src: Crosschain/Wire (wire.rs), Crosschain/Transport
--              (lz.rs, the default build), and lib.rs in Crosschain/Types, Crosschain/State,
--              Crosschain/Taker (fill, push, withdraw), Crosschain/Maker (on_fill, pay),
--              Crosschain/Funds (on_funds, on_fail, and the deliveries of lz.rs) and
--              Crosschain/Admin. Crosschain/Layout and Crosschain/RoundTrip are about the messages;
--              Crosschain/Entry, Crosschain/Moves, Crosschain/Steps, Crosschain/Receives and
--              Crosschain/Once about the life of a fill.
--   Vault      contracts/vault/src/lib.rs: the state, what the vault holds and its snapshot in Vault,
--              limits and previews in Vault/Views, venues and payments out of them in Vault/Venues,
--              deposits and withdrawals in Vault/Money, deployment, governance and compliance in
--              Vault/Curation; Vault/Intake is about what a deposit buys.
--
-- State is explicit: a World is the contract's storage and the state of all other contracts, of a
-- type that stays a parameter; an entry point takes a World and returns a result with the next one,
-- an error of the contract, or a trap. A failure rolls the call back, so it carries no state.
-- Integers trap when they leave their type, as Cargo.toml sets `overflow-checks`. Calls to other
-- contracts are functions of the record Host, of which the theorems assume nothing: tokens may lie
-- about transfers, which is why the contract measures balances. A call back into the contract
-- during a token transfer is not modelled, as the host forbids it. An upgrade records which code is
-- to run; theorems on sequences of calls speak of calls of this code, before and after it.
--
-- Not modelled: the CCTP build of the cross-chain contract (cctp.rs), events, times to live and
-- archival, views that return one stored entry, and the contracts that are not named above.
pub mod Prelude
pub mod Types
pub mod Math
pub mod Orders
pub mod Schedule
pub mod Host
pub mod Timelock
pub mod Crosschain
pub mod Queue
pub mod Redemption
pub mod Rfq
pub mod Shares
pub mod Vault
