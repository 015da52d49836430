-- ===== src/Rfq/Totals.antt =====
-- contracts/rfq/src/lib.rs: all the fills of one signed order, added up over the contract's life.
use stellar_rfq.Prelude.{
  ◌≡◌, ◌≢◌, inl, inr, refl, ap, ◌∙◌, Option, arith, subst, Bool-cases, if◌then◌else◌,
}
use stellar_rfq.Prelude.Int.{ℤ, pos, ◌+ℤ◌, ◌≤ℤ◌, int_laws}
use stellar_rfq.Prelude.Maps.{Bytes, bytes_beq, bytes_beq_iff}
use stellar_rfq.Prelude.Result.{ok}
use stellar_rfq.Host.{Host}
use stellar_rfq.Types.{Address}
use stellar_rfq.Orders.{RfqOrder, Signature, FillResult, rfq_request}
use stellar_rfq.Rfq.Storage.{World, set_listing}
use stellar_rfq.Rfq.Hash
use stellar_rfq.Rfq.Orders.{fill_rfq_order}
use stellar_rfq.Rfq.Settles.{fill_rfq_order-SettlesRfq, fill_fixed_order-SettlesFixed}
use stellar_rfq.Rfq.Books.{Raises, order_raised}
use stellar_rfq.Rfq.Frames.{frame}
use stellar_rfq.Rfq.Sales.{fill_dutch_order-Sold, cancel_dutch_order_lem}
use stellar_rfq.Rfq.Creation.{create_dutch_order-Listed}
use stellar_rfq.Rfq.Steps.{
  Step, setting, fills_rfq, fills_fixed, lists, sells, cancels, Reach, here, next,
}

if_for : Bytes → Bytes → ℤ → ℤ
if_for key hash amount = if bytes_beq hash key then amount else pos 0

Raises_lem :
    (f g : Bytes → ℤ) (hash : Bytes) (amount total : ℤ) (key : Bytes)
    → Raises f g hash amount total
    → g key ≡ f key +ℤ if_for key hash amount
unfolding if_for
Raises_lem f g hash amount total key (at_key, _, others) = elim (Bool-cases (bytes_beq hash key)) [
  | inl same ↦
      let here : hash ≡ key = (bytes_beq_iff hash key).0 same in
      rw same (subst (λ z. g z ≡ f z +ℤ amount) here at_key)
  | inr differ ↦
      let apart : hash ≢ key = λ e. absurd (ground (arith, (bytes_beq_iff hash key).1 e)) in
      rw (differ, others key apart) (omega int_laws)
]

unchanged : (a b : ℤ) → b ≡ a → b ≡ a +ℤ pos 0
unchanged a b e = rw e (omega int_laws)

add_one : (a b c x y : ℤ) → c ≡ b +ℤ y → b ≡ a +ℤ x → c ≡ a +ℤ (x +ℤ y)
add_one a b c x y e e' = rw (e, e') (omega int_laws)

from_zero : (a b x y total : ℤ) → a ≡ pos 0 → b ≡ a +ℤ x → b +ℤ y ≤ℤ total → x +ℤ y ≤ℤ total
from_zero a b x y total e e' h = subst (λ z. z +ℤ y ≤ℤ total) (e' ∙ same a x e) h
  where
    same : (a x : ℤ) → a ≡ pos 0 → a +ℤ x ≡ x
    same a x e = rw e (omega int_laws)

module _ {T : Type 0} where
  -- What one call fills of the order with this hash.
  step_filled : {w w' : World T} → Bytes → Step w w' → ℤ
  unfolding if_for
  step_filled key (fills_rfq h o m t sender amount res e) = if_for key (Hash.rfq_order h o) amount
  step_filled key (fills_fixed h o m t sender amount res e) =
      if_for key (Hash.fixed_order h o) amount
  step_filled key (setting h op e x) = pos 0
  step_filled key (lists h seller o id e) = pos 0
  step_filled key (sells h id buyer limit res e) = pos 0
  step_filled key (cancels h id e) = pos 0

  pub total_filled : {w w' : World T} → Bytes → Reach w w' → ℤ
  total_filled key here = pos 0
  total_filled key (next r st) = total_filled key r +ℤ step_filled key st

  step_lem :
      (key : Bytes) (w w' : World T) (st : Step w w')
      → w'.store.filled key ≡ w.store.filled key +ℤ step_filled key st
  unfolding step_filled set_listing
  step_lem key w w' (fills_rfq h o m t sender amount res e) =
      Raises_lem w.store.filled w'.store.filled _ amount _ key (
        order_raised h w w' _ _ _ t sender amount res
          ((fill_rfq_order-SettlesRfq h w m t sender amount o e).steps))
  step_lem key w w' (fills_fixed h o m t sender amount res e) =
      Raises_lem w.store.filled w'.store.filled _ amount _ key (
        order_raised h w w' _ _ _ t sender amount res
          ((fill_fixed_order-SettlesFixed h w m t sender amount o e).steps))
  step_lem key w w' (setting h op e _) = unchanged _ _ (ap (λ f. f key) ((frame h op w.store e).0))
  step_lem key w w' (lists h seller o id e) =
      unchanged _ _ (ap (λ z. z.filled key) ((create_dutch_order-Listed h w seller o e).stores))
  step_lem key w w' (sells h id buyer limit res e) =
      unchanged _ _ (ap (λ z. z.filled key) ((fill_dutch_order-Sold h w id buyer limit e).stores))
  step_lem key w w' (cancels h id e) =
      let (_, _, _, _, _, stores) = cancel_dutch_order_lem h w id e in
      unchanged _ _ (ap (λ z. z.filled key) stores)

  pub total_filled_lem :
      (key : Bytes) (w w' : World T) (r : Reach w w')
      → w'.store.filled key ≡ w.store.filled key +ℤ total_filled key r
  unfolding total_filled
  total_filled_lem key w w' here = unchanged _ _ refl
  total_filled_lem key w w' (next {v = u} r st) =
      add_one _ _ _ _ _ (step_lem key u w' st) (total_filled_lem key w u r)

  -- An order is never overfilled: if nothing of it was filled at first, then however its fills are
  -- spread over the life of the contract, and whatever calls come between, the amounts of all of
  -- them together are at most its amount.
  pub never_overfilled :
      (h : Host T) (w u : World T) (r : Reach w u) (o : RfqOrder) (m : Signature)
      (t : Option Signature) (sender : Address) (amount : ℤ) {res : FillResult} {w' : World T}
      → w.store.filled (Hash.rfq_order h o) ≡ pos 0
      → fill_rfq_order h u o m t sender amount ≡ ok (res, w')
      → total_filled (Hash.rfq_order h o) r +ℤ amount ≤ℤ o.taker_amount
  unfolding rfq_request
  never_overfilled h w u r o m t sender amount {res} {w'} fresh e =
      let raised =
        order_raised h u w' _ _ _ t sender amount res
          ((fill_rfq_order-SettlesRfq h u m t sender amount o e).steps) in
      from_zero _ _ _ _ _ fresh (total_filled_lem _ w u r) (rw (raised.0) at (raised.1))
