-- ===== src/Crosschain/Transport.antt =====
-- contracts/crosschain_settle/src/lz.rs: the transport of the default build, LayerZero.
use stellar_rfq.Prelude.{ℕ, Option, none, some, List, [], ◌∷◌, if◌then◌else◌, ◌==◌}
use stellar_rfq.Prelude.Int.{ℤ, pos, eqb_ℤ}
use stellar_rfq.Prelude.Maps.{Bytes}
use stellar_rfq.Prelude.Result.{ok, ◌>>=◌, or_trap, or_err}
use stellar_rfq.Types.{Address}
use stellar_rfq.Host.{Host}
use stellar_rfq.Crosschain.Types.{no_route, Return, Config, MessagingParams, SendParam, Links}
use stellar_rfq.Crosschain.State.{Settle, peer_of}

-- The OFT of a token, and the token of an OFT.
unfoldable pub oft_in : List (Address × Address) → Address → Option Address
oft_in [] token = none
oft_in ((t, oft) ∷ l) token = if t == token then some oft else oft_in l token

unfoldable pub token_in : List (Address × Address) → Address → Option Address
token_in [] from = none
token_in ((t, oft) ∷ l) from = if oft == from then some t else token_in l from

unfoldable pub oft_of : Config → Address → Return Address
unfolding oft_in
oft_of c token = or_err (oft_in c.bridge.ofts token) no_route

-- A route carries a token with an OFT only.
unfoldable pub check_route : Config → Address → Return (Unit {0})
unfolding oft_of
check_route c stable = oft_of c stable >>= λ _. ok tt

unfoldable pub send_param : Settle → ℕ → ℤ → Bytes → Return SendParam
unfolding peer_of
send_param s chain amount payload = do
  p ← peer_of s chain
  ok (record {
    dst_eid = chain;
    to = p.addr;
    amount_ld = amount;
    min_amount_ld = amount;
    extra_options = p.options;
    compose_msg = payload;
  })

unfoldable pub params : Settle → ℕ → Bytes → Return MessagingParams
unfolding peer_of
params s chain message = do
  p ← peer_of s chain
  ok (record { dst_eid = chain; receiver = p.addr; message = message; options = p.options })

module _ {T : Type 0} (h : Host T) (k : Links T) where
  unfoldable pub fee : Settle → T → Config → ℕ → Bytes → Return ℤ
  unfolding params
  fee s x c chain payload = do
    p ← params s chain payload
    or_trap (k.endpoint_quote x c.bridge.endpoint p)

  -- Sends a message to the peer on a chain; `payer` pays the endpoint in XLM.
  unfoldable pub send : Settle → T → Config → ℕ → Bytes → Address → Return T
  unfolding params
  send s x c chain payload payer = do
    p ← params s chain payload
    native ← or_trap (k.endpoint_quote x c.bridge.endpoint p)
    x' ← or_trap (h.transfer x c.xlm payer c.bridge.endpoint native)
    or_trap (k.endpoint_send x' c.bridge.endpoint p)

  unfoldable pub bridge_fee : Settle → T → Config → ℕ → Address → ℤ → Bytes → Return ℤ
  unfolding send_param oft_of
  bridge_fee s x c chain token amount payload = do
    p ← send_param s chain amount payload
    oft ← oft_of c token
    or_trap (k.quote_send x oft p)

  -- The payer's part of the OFT's fee, which this contract passes on.
  collect : T → Config → Address → ℤ → Return T
  collect x c payer native =
      if payer == h.me then ok x else or_trap (h.transfer x c.xlm payer h.me native)

  -- Sends a token through its OFT to the peer on a chain; `payer` pays the fee in XLM.
  unfoldable pub bridge : Settle → T → Config → ℕ → Address → ℤ → Bytes → Address → Return T
  unfolding send_param oft_of collect
  bridge s x c chain stable amount payload payer = do
    p ← send_param s chain amount payload
    oft ← oft_of c stable
    native ← or_trap (k.quote_send x oft p)
    x' ← collect x c payer native
    or_trap (k.oft_send x' oft p native)

  -- Native value that the executor delivered with a message.
  unfoldable pub take_value : T → Config → Address → ℤ → Return T
  take_value x c executor value =
      if eqb_ℤ value (pos 0) then ok x else or_trap (h.transfer x c.xlm executor h.me value)
