-- ===== src/Rfq/Hash.antt =====
-- contracts/rfq/src/hash.rs: what is signed. The hash and the serialisation are the host's.
use stellar_rfq.Prelude.{◌++◌}
use stellar_rfq.Prelude.Maps.{Bytes}
use stellar_rfq.Prelude.Lists.{codes}
use stellar_rfq.Host.{Host}
use stellar_rfq.Orders.{Request, RfqOrder, FixedOrder}

abbrev request_domain : Bytes
request_domain = codes "OCTARINE_REQUEST_V1"

abbrev rfq_domain : Bytes
rfq_domain = codes "OCTARINE_RFQ_ORDER_V1"

abbrev fixed_domain : Bytes
fixed_domain = codes "OCTARINE_FIXED_ORDER_V1"

abbrev sep53_prefix : Bytes
sep53_prefix = codes "Stellar Signed Message:\n"

module _ {T : Type 0} (h : Host T) where
  digest : Bytes → Bytes → Bytes
  digest domain body = h.sha256 (domain ++ (h.address_xdr h.me ++ body))

  unfoldable pub request : Request → Bytes
  unfolding digest
  request r = digest request_domain (h.request_xdr r)

  unfoldable pub rfq_order : RfqOrder → Bytes
  unfolding digest
  rfq_order order = digest rfq_domain (h.rfq_order_xdr order)

  unfoldable pub fixed_order : FixedOrder → Bytes
  unfolding digest
  fixed_order order = digest fixed_domain (h.fixed_order_xdr order)

  unfoldable pub sep53 : Bytes → Bytes
  sep53 order_hash = h.sha256 (sep53_prefix ++ order_hash)
