-- ===== src/Crosschain/Types.antt =====
-- contracts/crosschain_settle/src/lib.rs and lz.rs: the stored types, and the contracts that are
-- called. Bytes of 32 are identifiers, keys and addresses on other chains.
use stellar_rfq.Prelude.{ℕ, Bool, Option, List}
use stellar_rfq.Prelude.Int.{ℤ}
use stellar_rfq.Prelude.Maps.{Bytes}
use stellar_rfq.Prelude.Result.{Result}
use stellar_rfq.Types.{Address}
use stellar_rfq.Orders.{Request, RfqOrder}
use stellar_rfq.Timelock.{TimelockError}

pub data Error : Type 0 where
  unknown_sender no_peer no_route no_vault expired already_filled invalid_bid : Error
  quote_rejected not_found not_authorized underpaid : Error
  -- An error of the timelock, which panics on its own.
  from_timelock : TimelockError → Error

abbrev pub Return {ℓ} : Type ℓ → Type ℓ
Return A = Result Error A

-- lz.rs: LayerZero's endpoint, and the OFT that each token crosses through.
pub record Bridge : Type 0 where
  pub endpoint : Address
  pub ofts : List (Address × Address)

pub record Config : Type 0 where
  pub rfq : Address
  pub verifier : Address
  pub xlm : Address
  pub tip : ℤ
  pub bridge : Bridge

pub record Peer : Type 0 where
  pub addr : Bytes
  pub return_fee : ℤ
  pub options : Bytes

pub data Change : Type 0 where
  set_config : Config → Change
  set_peer : ℕ → Peer → Change
  set_route : ℕ → Address → Option Bytes → Change
  set_vault : Address → Option Address → Change
  set_delay : ℕ → Change

pub record Order : Type 0 where
  pub taker : Address
  pub chain : ℕ
  pub rwa : Address
  pub units : ℤ
  pub stable : Address
  pub amount : ℤ
  pub fee : ℤ
  pub tip : ℤ
  pub fee_recipient : Address
  pub delivery : ℕ
  pub recipient : Address
  pub maker : Bytes
  pub maker_is_contract : Bool

pub record Push : Type 0 where
  pub vault : Address
  pub rwa : Address
  pub recipient : Address
  pub batch : ℕ
  pub units : ℤ
  pub chain : ℕ
  pub stable : Address
  pub maker : Bytes
  pub maker_is_contract : Bool

pub record Quote : Type 0 where
  pub maker_amount : ℤ
  pub fee : ℤ
  pub horizon_seconds : ℕ

abbrev pub deliver_here : ℕ
deliver_here = 0

abbrev pub redeem_ct : ℕ
redeem_ct = 1

abbrev pub redeem_push : ℕ
redeem_push = 2

abbrev pub cross_deliver : ℕ
cross_deliver = 3

-- lz.rs: what LayerZero is handed.
pub record MessagingParams : Type 0 where
  pub dst_eid : ℕ
  pub receiver : Bytes
  pub message : Bytes
  pub options : Bytes

pub record Origin : Type 0 where
  pub src_eid : ℕ
  pub sender : Bytes
  pub nonce : ℕ

pub record SendParam : Type 0 where
  pub dst_eid : ℕ
  pub to : Bytes
  pub amount_ld : ℤ
  pub min_amount_ld : ℤ
  pub extra_options : Bytes
  pub compose_msg : Bytes

-- The contracts that are called, each at an address; a call that fails has no result.
pub record Links (T : Type 0) : Type 0 where
  -- The settlement contract.
  pub hash_request : T → Address → Request → Option Bytes
  pub quote_rfq_order : T → Address → RfqOrder → ℤ → Option Quote
  pub is_order_signer : T → Address → Address → Bytes → Option Bool
  pub is_salt_cancelled : T → Address → Address → ℕ → Option Bool
  -- A redemption vault: the stable of `init`, `request_redeem`, `claim` and `ct_of`.
  pub vault_stable : T → Address → Option Address
  pub request_redeem : T → Address → Address → ℤ → Address → Option (ℕ × T)
  pub claim : T → Address → Address → ℕ → ℤ → Address → Option T
  pub ct_of : T → Address → ℕ → Option Address
  -- Whether `try_verify` succeeds.
  pub verifies : T → Address → Bytes → Bytes → Bytes → Bool
  pub decimals : T → Address → Option ℕ
  -- LayerZero's endpoint and its OFTs; fees are the native ones.
  pub set_delegate : T → Address → Address → Option T
  pub endpoint_quote : T → Address → MessagingParams → Option ℤ
  pub endpoint_send : T → Address → MessagingParams → Option T
  pub clear : T → Address → Origin → Bytes → Bytes → Option T
  pub clear_compose : T → Address → Address → Bytes → ℕ → Bytes → Option T
  pub quote_send : T → Address → SendParam → Option ℤ
  pub oft_send : T → Address → SendParam → ℤ → Option T
  -- `Address::from_xdr`
  pub address_of : Bytes → Option Address
  -- The keys under which changes of a peer, a route or a vault wait, serialised.
  pub peer_key : ℕ → Bytes
  pub route_key : ℕ → Address → Bytes
  pub vault_key : Address → Bytes
