-- ===== src/Redemption/Machine.antt =====
-- contracts/redemption_vault/src/lib.rs, seen as a state machine over the batches, the totals, the
-- open batch and the busy accounts: one rule for each thing that may happen to a batch.
use stellar_rfq.Prelude.{◌⊎◌, ℕ, ◌+◌, ◌≡◌, Option, none, some, if◌then◌else◌, ◌==◌}
use stellar_rfq.Prelude.Int.{ℤ, pos, ◌+ℤ◌, ◌-ℤ◌, ◌≤ℤ◌, ◌<ℤ◌}
use stellar_rfq.Prelude.Maps.{update, nat_eq}
use stellar_rfq.Types.{Address}
use stellar_rfq.Redemption.Types.{«open», sent, settled, Batch, Totals, new_batch}
use stellar_rfq.Redemption.Batches.{Batches, find, store}
use stellar_rfq.Redemption.State.{Vault}

-- What the rules are about.
pub record Books : Type 0 where
  pub batches : Batches
  pub totals : Totals
  pub open_entry : Option ℕ
  pub next_entry : Option ℕ
  pub busy : Address → Option ℕ

unfoldable pub books : Vault → Books
books v = record {
  batches = v.batches;
  totals = v.totals;
  open_entry = v.open_entry;
  next_entry = v.next_entry;
  busy = v.busy;
}

unfoldable pub without : Option ℕ → ℕ → Option ℕ
without none id = none
without (some k) id = if k == id then none else some k

-- The busy accounts after the batch is gone from its account.
unfoldable pub freed : (Address → Option ℕ) → Option Address → Address → Option ℕ
freed busy none = busy
freed busy (some a) = update busy a none

-- What happens: to which batch, and with what amount where a caller names one.
pub data Event : Type 0 where
  resting : Event
  joining : ℤ → Event
  leaving : ℕ → ℤ → Event
  sending resending reopening settling claiming : ℕ → Event
  returning : ℕ → ℤ → Event

pub data Step (k : Books) : Event → Books → Type 0 where
  -- Nothing happens to the books.
  rests : Step k resting k
  -- Units join the open batch, ...
  joins :
      (id : ℕ) (b : Batch) (units : ℤ)
      → k.open_entry ≡ some id
      → find k.batches id ≡ some b
      → pos 0 <ℤ units
      → Step k (joining units) (record k {
        batches = store k.batches id (record b { units = b.units +ℤ units });
        totals = record k.totals { pooled = k.totals.pooled +ℤ units };
      })
  -- ... or open the next one.
  opens :
      (id : ℕ) (ct : Address) (units : ℤ)
      → k.open_entry ≡ none
      → k.next_entry ≡ some id
      → pos 0 <ℤ units
      → Step k (joining units) (record k {
        batches = store k.batches id (record (new_batch ct) { units = pos 0 +ℤ units });
        totals = record k.totals { pooled = k.totals.pooled +ℤ units };
        open_entry = some id;
        next_entry = some (id + 1);
      })
  leaves :
      (id : ℕ) (b : Batch) (amount : ℤ)
      → find k.batches id ≡ some b
      → b.status ≡ «open»
      → pos 0 <ℤ amount
      → amount ≤ℤ b.units
      → Step k (leaving id amount) (record k {
        batches = store k.batches id (record b { units = b.units -ℤ amount });
        totals = record k.totals { pooled = k.totals.pooled -ℤ amount };
      })
  -- An open batch goes to the issuer: from a free account, ...
  leaves_from :
      (id : ℕ) (b : Batch) (account : Address) (start strike : ℤ) (now : ℕ)
      → find k.batches id ≡ some b
      → b.status ≡ «open»
      → pos 0 <ℤ b.units
      → k.busy account ≡ none
      → Step k (sending id) (record k {
        batches = store k.batches id (record b {
          account = some account;
          nav_start = start;
          strike = strike;
          status = sent;
          sent_at = now;
        });
        totals = record k.totals { pooled = k.totals.pooled -ℤ b.units; sent = k.totals.sent + 1 };
        open_entry = without k.open_entry id;
        busy = update k.busy account (some id);
      })
  -- ... or by the operator's hand.
  leaves_by_hand :
      (id : ℕ) (b : Batch) (start strike : ℤ) (now : ℕ)
      → find k.batches id ≡ some b
      → b.status ≡ «open»
      → pos 0 <ℤ b.units
      → Step k (sending id) (record k {
        batches =
            store k.batches id
              (record b { nav_start = start; strike = strike; status = sent; sent_at = now });
        totals = record k.totals { pooled = k.totals.pooled -ℤ b.units; sent = k.totals.sent + 1 };
        open_entry = without k.open_entry id;
      })
  -- What the issuer handed back is booked, or sent again, or is the whole batch.
  hands_back :
      (id : ℕ) (b : Batch) (returned : ℤ)
      → find k.batches id ≡ some b
      → b.status ≡ sent
      → pos 0 <ℤ returned
      → b.unsent +ℤ returned ≤ℤ b.units
      → Step k
          (returning id returned)
          (record k { batches = store k.batches id (record b { unsent = b.unsent +ℤ returned }) })
  resends :
      (id : ℕ) (b : Batch)
      → find k.batches id ≡ some b
      → b.status ≡ sent
      → Step k
          (resending id)
          (record k { batches = store k.batches id (record b { unsent = pos 0 }) })
  reopens :
      (id : ℕ) (b : Batch) (account : Address) (n : ℕ)
      → find k.batches id ≡ some b
      → b.status ≡ sent
      → b.account ≡ some account
      → n + 1 ≡ k.totals.sent
      → Step k (reopening id) (record k {
        batches =
            store k.batches id
              (record b { status = «open»; account = none; unsent = pos 0; strike = pos 0 });
        totals = record k.totals { pooled = k.totals.pooled +ℤ b.units; sent = n };
        busy = update k.busy account none;
      })
  settles :
      (id : ℕ) (b : Batch) (proceeds fee unsent nav : ℤ) (now n : ℕ)
      → find k.batches id ≡ some b
      → b.status ≡ sent
      → (unsent ≡ b.unsent) ⊎ ((pos 0 ≤ℤ unsent) × (unsent ≤ℤ b.units))
      → n + 1 ≡ k.totals.sent
      → Step k (settling id) (record k {
        batches = store k.batches id (record b {
          unsent = unsent;
          status = settled;
          proceeds = proceeds;
          fee = fee;
          remaining = proceeds -ℤ fee;
          nav_end = nav;
          settled_at = now;
        });
        totals = record k.totals {
          proceeds = k.totals.proceeds +ℤ (proceeds -ℤ fee);
          rwa = k.totals.rwa +ℤ unsent;
          sent = n;
        };
        busy = freed k.busy b.account;
      })
  claims :
      (id : ℕ) (b : Batch) (assets units : ℤ)
      → find k.batches id ≡ some b
      → b.status ≡ settled
      → pos 0 ≤ℤ assets
      → pos 0 ≤ℤ units
      → Step k (claiming id) (record k {
        batches =
            store k.batches id
              (record b { remaining = b.remaining -ℤ assets; unsent = b.unsent -ℤ units });
        totals = record k.totals {
          proceeds = k.totals.proceeds -ℤ assets;
          rwa = k.totals.rwa -ℤ units;
        };
      })
