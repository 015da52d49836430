-- ===== src/Redemption/Holders.antt =====
-- contracts/redemption_vault/src/lib.rs: what holders do: request, cancel and claim, and the opening
-- of a batch.
use stellar_rfq.Prelude.{
  ℕ, zero, suc, ◌+◌, ◌/◌, ◌%◌, ◌^◌, ◌||◌, none, some, [], ◌∷◌, ◌++◌, leb, if◌then◌else◌,
}
use stellar_rfq.Prelude.Int.{ℤ, pos, ltb_ℤ, leb_ℤ}
use stellar_rfq.Prelude.Lists.{length, codes}
use stellar_rfq.Prelude.Maps.{update, nat_eq, Bytes, ◌==◌}
use stellar_rfq.Prelude.Result.{ok, ◌>>=◌, ◌>>◌, fail_if, or_trap}
use stellar_rfq.Prelude.Words.{uint, u64_max, add_i128, sub_i128}
use stellar_rfq.Types.{Address}
use stellar_rfq.Host.{Host, require_auth}
use stellar_rfq.Redemption.Types.{
  invalid_amount, paused, Return, «open», settled, Batch, Totals, new_batch,
}
use stellar_rfq.Redemption.Outside.{Outside}
use stellar_rfq.Redemption.State.{Vault, init, settings, batch_of, with_status, put_batch, md, send}

-- The digits of `v`, of which a u64 has at most 20; the first argument bounds the loop.
unfoldable pub digits : ℕ → ℕ → Bytes → Bytes
digits zero v tail = tail
digits (suc n) v tail =
    let rest = digits n (v / 10) ((48 + v % 10) ∷ tail) in
    if v / 10 == 0 then (48 + v % 10) ∷ tail else rest

-- `n.to_be_bytes()` of a u64, after a tag and 23 zeros.
unfoldable pub salt : ℕ → ℕ → Bytes
salt tag n =
    tag
    ∷ 0
    ∷ 0
    ∷ 0
    ∷ 0
    ∷ 0
    ∷ 0
    ∷ 0
    ∷ 0
    ∷ 0
    ∷ 0
    ∷ 0
    ∷ 0
    ∷ 0
    ∷ 0
    ∷ 0
    ∷ 0
    ∷ 0
    ∷ 0
    ∷ 0
    ∷ 0
    ∷ 0
    ∷ 0
    ∷ 0
    ∷ n / 2 ^ 56
    ∷ n / 2 ^ 48 % 256
    ∷ n / 2 ^ 40 % 256
    ∷ n / 2 ^ 32 % 256
    ∷ n / 2 ^ 24 % 256
    ∷ n / 2 ^ 16 % 256
    ∷ n / 2 ^ 8 % 256
    ∷ n % 256
    ∷ []

-- The symbol of the RWA in a claim token's name, if it is at most 24 bytes long.
unfoldable pub short_symbol : Bytes → Bytes
short_symbol sym = if leb (length sym) 24 then sym else codes "RWA"

abbrev pub ct_salt : ℕ
ct_salt = 1

abbrev pub account_salt : ℕ
account_salt = 2

unfoldable pub tally_request : ℤ → Totals → Return Totals
tally_request units t = do p ← add_i128 t.pooled units; ok (record t { pooled = p })

unfoldable pub tally_cancel : ℤ → Totals → Return Totals
tally_cancel amount t = do p ← sub_i128 t.pooled amount; ok (record t { pooled = p })

unfoldable pub tally_claim : ℤ → ℤ → Totals → Return Totals
tally_claim assets units t = do
  p ← sub_i128 t.proceeds assets
  r ← sub_i128 t.rwa units
  ok (record t { proceeds = p; rwa = r })

module _ {T : Type 0} (h : Host T) (o : Outside T) where
  unfoldable pub deploy_ct : Vault → T → ℕ → Return (Address × T)
  unfolding init settings digits short_symbol
  deploy_ct v x id = do
    i ← init v
    symbol ← or_trap (o.token_symbol x i.rwa)
    let sym = short_symbol symbol
    let d = digits 20 id []
    s ← settings v
    or_trap (
        o.deploy_ct x (salt ct_salt id) i.ct_wasm (record {
          minter = h.me;
          rwa = i.rwa;
          batch = id;
          gate = s.gate;
          name = codes "Octarine Claim " ++ (sym ++ (codes " #" ++ d));
          symbol = codes "ct" ++ (sym ++ (codes "-" ++ d));
        }))

  -- The open batch, and the state in which it is open.
  unfoldable pub open_batch : Vault → T → Return ((ℕ × Batch) × (Vault × T))
  unfolding batch_of deploy_ct
  open_batch v x = elim v.open_entry [
    | some id ↦ do b ← batch_of v id; ok ((id, b), (v, x))
    | none ↦ do
      id ← or_trap v.next_entry
      next ← uint u64_max (id + 1)
      let v' = record v { next_entry = some next; open_entry = some id }
      (c, x') ← deploy_ct v' x id
      ok ((id, new_batch c), (record v' { ct = update v'.ct c (some id) }, x'))
  ]

  unfoldable pub request_redeem : Vault × T → Address → ℤ → Address → Return (ℕ × (Vault × T))
  unfolding init open_batch put_batch tally_request
  request_redeem (v, x) owner units controller = do
    require_auth h owner
    fail_if v.is_paused paused
    fail_if (leb_ℤ units (pos 0) || controller == h.me) invalid_amount
    i ← init v
    x1 ← or_trap (h.transfer x i.rwa owner h.me units)
    ((id, b), (v1, x2)) ← open_batch v x1
    total ← add_i128 b.units units
    let v2 = put_batch v1 id (record b { units = total })
    t ← tally_request units v2.totals
    x3 ← or_trap (o.mint x2 b.ct controller units)
    ok (id, (record v2 { totals = t }, x3))

  unfoldable pub cancel : Vault × T → Address → ℕ → ℤ → Address → Return (Vault × T)
  unfolding with_status put_batch tally_cancel init send
  cancel (v, x) owner id amount receiver = do
    require_auth h owner
    b ← with_status v id «open»
    fail_if (leb_ℤ amount (pos 0) || ltb_ℤ b.units amount) invalid_amount
    x1 ← or_trap (o.burn_claim x b.ct owner amount)
    left ← sub_i128 b.units amount
    let v1 = put_batch v id (record b { units = left })
    t ← tally_cancel amount v1.totals
    i ← init v
    x2 ← send h x1 i.rwa receiver amount
    ok (record v1 { totals = t }, x2)

  -- The stable paid, and the state after.
  unfoldable pub claim : Vault × T → Address → ℕ → ℤ → Address → Return (ℤ × (Vault × T))
  unfolding with_status md put_batch tally_claim init send
  claim (v, x) owner id shares receiver = do
    require_auth h owner
    b ← with_status v id settled
    fail_if (leb_ℤ shares (pos 0)) invalid_amount
    supply ← or_trap (o.total_supply x b.ct)
    assets ← md shares b.remaining supply
    units ← md shares b.unsent supply
    x1 ← or_trap (o.burn_claim x b.ct owner shares)
    remaining ← sub_i128 b.remaining assets
    unsent ← sub_i128 b.unsent units
    let v1 = put_batch v id (record b { remaining = remaining; unsent = unsent })
    t ← tally_claim assets units v1.totals
    i ← init v
    x2 ← send h x1 i.stable receiver assets
    x3 ← send h x2 i.rwa receiver units
    ok (assets, (record v1 { totals = t }, x3))
