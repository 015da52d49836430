-- ===== src/Shares/Fees.antt =====
-- crates/shares/src/lib.rs: the performance fee above the high-water mark, and the conversions.
use stellar_rfq.Prelude.{ℕ, ◌&&◌, ltb, Bool, if◌then◌else◌}
use stellar_rfq.Prelude.Int.{ℤ, pos, ltb_ℤ, leb_ℤ}
use stellar_rfq.Prelude.Result.{ok, ◌>>=◌}
use stellar_rfq.Prelude.Words.{add_i128, sub_i128}
use stellar_rfq.Math.{one, bps}
use stellar_rfq.Types.{Address}
use stellar_rfq.Shares.{Shares, Return, virtual_shares, md, md_up, share_price, mint}

-- The issuer as it stands, with any fee due counted as minted.
pub record Snapshot : Type 0 where
  pub nav : ℤ
  pub supply : ℤ
  pub fee_shares : ℤ
  pub hwm : ℤ

-- The fee as shares, on a price above the mark.
unfoldable pub fee_on : ℤ → ℤ → ℤ → ℤ → ℕ → Return ℤ
fee_on nav minted now mark fee_bps = do
  above ← sub_i128 now mark
  shares ← add_i128 minted virtual_shares
  gain ← md above shares one
  fee ← md gain (pos fee_bps) bps
  if ltb_ℤ (pos 0) fee && leb_ℤ fee nav
      then (do assets ← add_i128 nav (pos 1); rest ← sub_i128 assets fee; md fee shares rest)
      else ok (pos 0)

unfoldable pub snapshot : Shares → ℤ → ℕ → Return Snapshot
unfolding fee_on
snapshot s nav fee_bps = do
  let minted = s.supply
  let mark = s.hwm
  now ← share_price nav minted
  fee_shares ←
      (if ltb_ℤ mark now && (ltb 0 fee_bps && ltb_ℤ (pos 0) minted)
        then fee_on nav minted now mark fee_bps
        else ok (pos 0))
  supply ← add_i128 minted fee_shares
  hwm ← (if ltb_ℤ mark now then share_price nav supply else ok mark)
  ok (record { nav = nav; supply = supply; fee_shares = fee_shares; hwm = hwm })

-- Mints the fee due to the curator and moves the mark.
unfoldable pub accrue : Shares → ℤ → ℕ → Address → Return (Snapshot × Shares)
accrue s nav fee_bps curator = do
  due ← snapshot s nav fee_bps
  s' ← mint s curator due.fee_shares
  ok (due, record s' { hwm = due.hwm })

unfoldable pub to_shares : Snapshot → ℤ → Bool → Return ℤ
to_shares s assets up = do
  shares ← add_i128 s.supply virtual_shares
  value ← add_i128 s.nav (pos 1)
  if up then md_up assets shares value else md assets shares value

unfoldable pub to_assets : Snapshot → ℤ → Bool → Return ℤ
to_assets s shares up = do
  value ← add_i128 s.nav (pos 1)
  total ← add_i128 s.supply virtual_shares
  if up then md_up shares value total else md shares value total
