-- ===== src/Redemption/Keeps.antt =====
-- contracts/redemption_vault/src/lib.rs: every step of the machine keeps the books in order.
use stellar_rfq.Prelude.{
  ℕ, ◌+◌, ◌≡◌, ◌≢◌, refl, sym, ap, subst, ◌∙◌, Option, none, some, inl, inr, arith,
}
use stellar_rfq.Prelude.Int.{ℤ, pos, ◌+ℤ◌, ◌-ℤ◌, ◌≤ℤ◌, ◌<ℤ◌, +ℤ_parts, -ℤ_parts, int_laws}
use stellar_rfq.Prelude.Maps.{update, nat_eq, update_self, update_ne}
use stellar_rfq.Types.{Address}
use stellar_rfq.Redemption.Types.{«open», sent, settled, Batch, new_batch}
use stellar_rfq.Redemption.Batches.{find, store, weight}
use stellar_rfq.Redemption.Machine.{
  Books, without, freed, Step, Event, rests, joins, opens, leaves, leaves_from, leaves_by_hand,
  hands_back, resends, reopens, settles, claims,
}
use stellar_rfq.Redemption.Valid.{
  IsValid, IsLawful, pooled_of, proceeds_of, rwa_of, sent_of, store-IsValid,
}
use stellar_rfq.Redemption.Changes.{
  open_ne_sent, settled_ne_sent, settled_ne_open, open-status, still_current, change-IsValid,
  without_ok,
}

module _ (k : Books) (id : ℕ) (b : Batch) (v : IsValid k) (found : find k.batches id ≡ some b) where
  law : IsLawful b
  law = v.lawful id b found

  -- An account that is freed, or taken, was not another batch's.
  others_after :
      (account : Address) (o : Option ℕ)
      → ((other : ℕ) → id ≢ other → k.busy account ≢ some other)
      → (a : Address) (other : ℕ) → id ≢ other
      → k.busy a ≡ some other
      → update k.busy account o a ≡ some other
  others_after account o free a other apart e =
      update_ne k.busy account a o (λ p. absurd (free other apart (ap k.busy p ∙ e))) ∙ e

  held-apart :
      (account : Address)
      → b.status ≡ sent
      → b.account ≡ some account
      → (other : ℕ) → id ≢ other
      → k.busy account ≢ some other
  held-apart account is_sent at other apart e =
      let mine = v.held id b account found is_sent at in absurd (apart (cc))

  joins-IsValid :
      (units : ℤ)
      → k.open_entry ≡ some id
      → pos 0 <ℤ units
      → IsValid (record k {
        batches = store k.batches id (record b { units = b.units +ℤ units });
        totals = record k.totals { pooled = k.totals.pooled +ℤ units };
      })
  unfolding weight pooled_of proceeds_of rwa_of sent_of
  joins-IsValid units is_open positive =
      let status = open-status k id b v is_open found in
      change-IsValid k id b (record b { units = b.units +ℤ units })
        (record k.totals { pooled = k.totals.pooled +ℤ units }) k.open_entry k.busy v found
        (record {
          pooled = rw (found, status) (omega int_laws);
          proceeds = rw (found, status) refl;
          rwa = rw (found, status) refl;
          counted = rw (found, status) refl;
        })
        (record {
          units_nonneg = omega (arith, +ℤ_parts b.units units, law.units_nonneg);
          away = λ e. absurd (open_ne_sent (sym status ∙ e));
          here = law.here;
        })
        (still_current k id b.status v b found (λ e. e))
        (λ a e. absurd (open_ne_sent (sym status ∙ e))) (λ a other apart e. e)

  leaves-IsValid :
      (amount : ℤ)
      → b.status ≡ «open»
      → amount ≤ℤ b.units
      → IsValid (record k {
        batches = store k.batches id (record b { units = b.units -ℤ amount });
        totals = record k.totals { pooled = k.totals.pooled -ℤ amount };
      })
  unfolding weight pooled_of proceeds_of rwa_of sent_of
  leaves-IsValid amount status within =
      change-IsValid k id b (record b { units = b.units -ℤ amount })
        (record k.totals { pooled = k.totals.pooled -ℤ amount }) k.open_entry k.busy v found
        (record {
          pooled = rw (found, status) (omega int_laws);
          proceeds = rw (found, status) refl;
          rwa = rw (found, status) refl;
          counted = rw (found, status) refl;
        })
        (record {
          units_nonneg = omega (arith, -ℤ_parts b.units amount, within);
          away = λ e. absurd (open_ne_sent (sym status ∙ e));
          here = law.here;
        })
        (still_current k id b.status v b found (λ e. e))
        (λ a e. absurd (open_ne_sent (sym status ∙ e))) (λ a other apart e. e)

  -- The batch as it goes to the issuer.
  abbrev away_batch : Option Address → ℤ → ℤ → ℕ → Batch
  away_batch account start strike now = record b {
    account = account;
    nav_start = start;
    strike = strike;
    status = sent;
    sent_at = now;
  }

  away-IsValid :
      (account : Option Address) (start strike : ℤ) (now : ℕ) (busy : Address → Option ℕ)
      → b.status ≡ «open»
      → ((a : Address) → account ≡ some a → busy a ≡ some id)
      → ((a : Address) (other : ℕ) → id ≢ other → k.busy a ≡ some other → busy a ≡ some other)
      → IsValid (record k {
        batches = store k.batches id (away_batch account start strike now);
        totals = record k.totals { pooled = k.totals.pooled -ℤ b.units; sent = k.totals.sent + 1 };
        open_entry = without k.open_entry id;
        busy = busy;
      })
  unfolding weight pooled_of proceeds_of rwa_of sent_of
  away-IsValid account start strike now busy status own others =
      let (_, none_unsent) = law.here status in
      change-IsValid k id b (away_batch account start strike now)
        (record k.totals { pooled = k.totals.pooled -ℤ b.units; sent = k.totals.sent + 1 })
        (without k.open_entry id) busy v found
        (record {
          pooled = rw (found, status) (omega int_laws);
          proceeds = rw (found, status) refl;
          rwa = rw (found, status) refl;
          counted = rw (found, status) (omega int_laws);
        })
        (record {
          units_nonneg = law.units_nonneg;
          away = λ e. rw none_unsent (omega arith, law.units_nonneg);
          here = λ e. absurd (open_ne_sent (sym e));
        })
        (λ other e. inr (without_ok k.open_entry id other e)) (λ a e at. own a at) others

  sent-IsValid :
      (unsent : ℤ)
      → b.status ≡ sent
      → pos 0 ≤ℤ unsent
      → unsent ≤ℤ b.units
      → IsValid (record k { batches = store k.batches id (record b { unsent = unsent }) })
  unfolding weight pooled_of proceeds_of rwa_of sent_of
  sent-IsValid unsent status low high =
      change-IsValid k id b (record b { unsent = unsent }) k.totals k.open_entry k.busy v found
        (record {
          pooled = rw (found, status) refl;
          proceeds = rw (found, status) refl;
          rwa = rw (found, status) refl;
          counted = rw (found, status) refl;
        })
        (record {
          units_nonneg = law.units_nonneg;
          away = λ e. (low, high);
          here = λ e. absurd (open_ne_sent (sym e ∙ status));
        })
        (still_current k id b.status v b found (λ e. e)) (λ a e at. v.held id b a found e at)
        (λ a other apart e. e)

  reopens-IsValid :
      (account : Address) (n : ℕ)
      → b.status ≡ sent
      → b.account ≡ some account
      → n + 1 ≡ k.totals.sent
      → IsValid (record k {
        batches =
            store k.batches id
              (record b { status = «open»; account = none; unsent = pos 0; strike = pos 0 });
        totals = record k.totals { pooled = k.totals.pooled +ℤ b.units; sent = n };
        busy = update k.busy account none;
      })
  unfolding weight pooled_of proceeds_of rwa_of sent_of
  reopens-IsValid account n status at less =
      change-IsValid k id b
        (record b { status = «open»; account = none; unsent = pos 0; strike = pos 0 })
        (record k.totals { pooled = k.totals.pooled +ℤ b.units; sent = n }) k.open_entry
        (update k.busy account none) v found
        (record {
          pooled = rw (found, status) (omega int_laws);
          proceeds = rw (found, status) refl;
          rwa = rw (found, status) refl;
          counted = rw (found, status) (omega int_laws);
        })
        (record {
          units_nonneg = law.units_nonneg;
          away = λ e. absurd (open_ne_sent e);
          here = λ e. (refl, refl);
        })
        (still_current k id «open» v b found (λ e. refl)) (λ a e. absurd (open_ne_sent e))
        (others_after account none (held-apart account status at))

  claims-IsValid :
      (assets units : ℤ)
      → b.status ≡ settled
      → IsValid (record k {
        batches =
            store k.batches id
              (record b { remaining = b.remaining -ℤ assets; unsent = b.unsent -ℤ units });
        totals = record k.totals {
          proceeds = k.totals.proceeds -ℤ assets;
          rwa = k.totals.rwa -ℤ units;
        };
      })
  unfolding weight pooled_of proceeds_of rwa_of sent_of
  claims-IsValid assets units status =
      change-IsValid k id b
        (record b { remaining = b.remaining -ℤ assets; unsent = b.unsent -ℤ units })
        (record k.totals { proceeds = k.totals.proceeds -ℤ assets; rwa = k.totals.rwa -ℤ units })
        k.open_entry k.busy v found
        (record {
          pooled = rw (found, status) refl;
          proceeds = rw (found, status) (omega int_laws);
          rwa = rw (found, status) (omega int_laws);
          counted = rw (found, status) refl;
        })
        (record {
          units_nonneg = law.units_nonneg;
          away = λ e. absurd (settled_ne_sent (sym status ∙ e));
          here = λ e. absurd (settled_ne_open (sym status ∙ e));
        })
        (still_current k id b.status v b found (λ e. e))
        (λ a e. absurd (settled_ne_sent (sym status ∙ e))) (λ a other apart e. e)

  freed_others :
      (o : Option Address)
      → b.account ≡ o
      → b.status ≡ sent
      → (a : Address) (other : ℕ) → id ≢ other
      → k.busy a ≡ some other
      → freed k.busy o a ≡ some other
  unfolding freed
  freed_others none at status a other apart e = e
  freed_others (some account) at status a other apart e =
      others_after account none (held-apart account status at) a other apart e

  settles-IsValid :
      (proceeds fee unsent nav : ℤ) (now n : ℕ)
      → b.status ≡ sent
      → n + 1 ≡ k.totals.sent
      → IsValid (record k {
        batches = store k.batches id (record b {
          unsent = unsent;
          status = settled;
          proceeds = proceeds;
          fee = fee;
          remaining = proceeds -ℤ fee;
          nav_end = nav;
          settled_at = now;
        });
        totals = record k.totals {
          proceeds = k.totals.proceeds +ℤ (proceeds -ℤ fee);
          rwa = k.totals.rwa +ℤ unsent;
          sent = n;
        };
        busy = freed k.busy b.account;
      })
  unfolding weight pooled_of proceeds_of rwa_of sent_of
  settles-IsValid proceeds fee unsent nav now n status less =
      let c = record b {
        unsent = unsent;
        status = settled;
        proceeds = proceeds;
        fee = fee;
        remaining = proceeds -ℤ fee;
        nav_end = nav;
        settled_at = now;
      } in
      change-IsValid k id b c
        (record k.totals {
          proceeds = k.totals.proceeds +ℤ (proceeds -ℤ fee);
          rwa = k.totals.rwa +ℤ unsent;
          sent = n;
        })
        k.open_entry (freed k.busy b.account) v found
        (record {
          pooled = rw (found, status) refl;
          proceeds = rw (found, status) (omega int_laws);
          rwa = rw (found, status) (omega int_laws);
          counted = rw (found, status) (omega int_laws);
        })
        (record {
          units_nonneg = law.units_nonneg;
          away = λ e. absurd (settled_ne_sent e);
          here = λ e. absurd (settled_ne_open e);
        })
        (still_current k id settled v b found (λ e. absurd (open_ne_sent (sym e ∙ status))))
        (λ a e. absurd (settled_ne_sent e)) (freed_others b.account refl status)

some_is_none : (n : ℕ) → some n ≢ none
some_is_none n e = absurd (cc)

no_account : (a : Address) → some a ≢ none
no_account a e = absurd (cc)

opens-IsValid :
    (k : Books) (id : ℕ) (ct : Address) (units : ℤ)
    → IsValid k
    → k.next_entry ≡ some id
    → pos 0 <ℤ units
    → IsValid (record k {
      batches = store k.batches id (record (new_batch ct) { units = pos 0 +ℤ units });
      totals = record k.totals { pooled = k.totals.pooled +ℤ units };
      open_entry = some id;
      next_entry = some (id + 1);
    })
unfolding weight pooled_of proceeds_of rwa_of sent_of
opens-IsValid k id ct units v next positive =
    let unused = v.fresh id id next (omega arith) in
    store-IsValid k id (record (new_batch ct) { units = pos 0 +ℤ units })
      (record k.totals { pooled = k.totals.pooled +ℤ units }) (some id) (some (id + 1)) k.busy v
      (record {
        pooled = rw unused (omega int_laws);
        proceeds = rw unused refl;
        rwa = rw unused refl;
        counted = rw unused refl;
      })
      (record {
        units_nonneg = omega (arith, +ℤ_parts (pos 0) units);
        away = λ e. absurd (open_ne_sent e);
        here = λ e. (refl, refl);
      })
      (λ other e. inl (cc, refl)) (λ n e. (ground arith, (id, next, ground arith)))
      (λ a e. absurd (open_ne_sent e)) (λ a other apart e. e)

pub Step-IsValid : {k : Books} {ev : Event} {k' : Books} → Step k ev k' → IsValid k → IsValid k'
Step-IsValid rests v = v
Step-IsValid {k} (joins id b units is_open found positive) v =
    joins-IsValid k id b v found units is_open positive
Step-IsValid {k} (opens id ct units none_open next positive) v =
    opens-IsValid k id ct units v next positive
Step-IsValid {k} (leaves id b amount found status positive within) v =
    leaves-IsValid k id b v found amount status within
Step-IsValid {k} (leaves_from id b account start strike now found status some_units free) v =
    away-IsValid k id b v found (some account) start strike now (update k.busy account (some id))
      status
      (λ a e.
        subst (λ z. update k.busy account (some id) z ≡ some id) (cc)
          (update_self k.busy account (some id)))
      (others_after k id b v found account (some id)
        (λ other apart e. absurd (some_is_none other (sym e ∙ free))))
Step-IsValid {k} (leaves_by_hand id b start strike now found status some_units) v =
    away-IsValid k id b v found b.account start strike now k.busy status
      (λ a e. absurd (no_account a (sym e ∙ ((v.lawful id b found).here status).0)))
      (λ a other apart e. e)
Step-IsValid {k} (hands_back id b returned found status positive within) v =
    let low = ((v.lawful id b found).away status).0 in
    sent-IsValid k id b v found (b.unsent +ℤ returned) status
      (omega (arith, +ℤ_parts b.unsent returned, low, positive)) within
Step-IsValid {k} (resends id b found status) v =
    sent-IsValid k id b v found (pos 0) status (omega arith) ((v.lawful id b found).units_nonneg)
Step-IsValid {k} (reopens id b account n found status at less) v =
    reopens-IsValid k id b v found account n status at less
Step-IsValid {k} (settles id b proceeds fee unsent nav now n found status bound less) v =
    settles-IsValid k id b v found proceeds fee unsent nav now n status less
Step-IsValid {k} (claims id b assets units found status low low') v =
    claims-IsValid k id b v found assets units status
