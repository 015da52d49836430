-- ===== src/Vault/Venues.antt =====
-- contracts/vault/src/lib.rs: the venues, in the order exits draw on them.
use stellar_rfq.Prelude.{
  ℕ, zero, suc, Bool, true, false, not, Option, none, some, List, [], ◌∷◌, ◌++◌, if◌then◌else◌, leb,
  ◌||◌,
}
use stellar_rfq.Prelude.Int.{ℤ, pos, ltb_ℤ, leb_ℤ}
use stellar_rfq.Prelude.Lists.{length}
use stellar_rfq.Prelude.Maps.{Bytes, nat_eq, ◌==◌, ◌!=◌}
use stellar_rfq.Prelude.Result.{ok, ◌>>=◌, ◌>>◌, fail_if, or_trap, or_err}
use stellar_rfq.Prelude.Words.{sub_i128, min_ℤ}
use stellar_rfq.Types.{Address, VaultConfig}
use stellar_rfq.Host.{Host, require_auth}
use stellar_rfq.Vault.{
  Vault, Links, Return, max_venues, invalid_amount, invalid_config, venue_not_found,
  venue_not_empty, too_many_venues, insufficient_liquidity, config, idle, accrue_now,
}

-- `first_index_of` and `last_index_of`
unfoldable pub first_index : Address → List Address → Option ℕ
first_index a [] = none
first_index a (b ∷ l) =
    if a == b then some 0 else elim (first_index a l) [ none ↦ none | some i ↦ some (suc i) ]

unfoldable pub last_index : Address → List Address → Option ℕ
last_index a [] = none
last_index a (b ∷ l) = elim (last_index a l) [
  | some i ↦ some (suc i)
  | none ↦ if a == b then some 0 else none
]

unfoldable pub same_index : Option ℕ → Option ℕ → Bool
same_index none none = true
same_index (some i) (some j) = i == j
same_index _ _ = false

-- `venues.remove(i)`
unfoldable pub remove_at : ℕ → List Address → List Address
remove_at n [] = []
remove_at zero (a ∷ l) = l
remove_at (suc n) (a ∷ l) = a ∷ remove_at n l

unfoldable pub venue_index : List Address → Address → Return ℕ
unfolding first_index
venue_index venues adapter = or_err (first_index adapter venues) venue_not_found

-- The loop of `set_venue_order` over what is left of the order.
unfoldable pub check_each : List Address → List Address → List Address → Return (Unit {0})
unfolding venue_index last_index same_index
check_each venues order [] = ok tt
check_each venues order (a ∷ rest) = do
  i ← venue_index venues a
  fail_if (not (same_index (first_index a order) (last_index a order))) invalid_config
  check_each venues order rest

module _ {T : Type 0} (h : Host T) where
  unfoldable pub curator_auth : Vault → Return VaultConfig
  curator_auth v = do c ← config v; require_auth h c.curator; ok c

  unfoldable pub manager_auth : Vault → Return VaultConfig
  manager_auth v = do c ← config v; require_auth h c.manager; ok c

  unfoldable pub set_venue_order : Vault → List Address → Return Vault
  unfolding manager_auth check_each
  set_venue_order v order = do
    c ← manager_auth v
    check_each v.venues order order
    fail_if (length order != length v.venues) invalid_config
    ok (record v { venues = order })

module _ {T : Type 0} (h : Host T) (o : Links T) where
  unfoldable pub disable_venue : Vault → T → Address → Return Vault
  unfolding curator_auth venue_index remove_at
  disable_venue v x adapter = do
    c ← curator_auth h v
    i ← venue_index v.venues adapter
    worth ← or_trap (o.total_assets x adapter)
    fail_if (ltb_ℤ (pos 0) worth) venue_not_empty
    ok (record v { venues = remove_at i v.venues })

  unfoldable pub add_venue : Vault → T → VaultConfig → Bytes → Address → Return (Vault × T)
  add_venue v x c wasm venue = do
    fail_if (leb max_venues (length v.venues)) too_many_venues
    host ← or_trap v.host_entry
    (adapter, x') ← or_trap (o.deploy_adapter x host h.me wasm c.asset venue)
    ok (record v { venues = v.venues ++ (adapter ∷ []) }, x')

  -- The loop of `send`: draws on the venues in order until idle is enough.
  unfoldable pub draw : Vault → List Address → ℤ → T → Return T
  draw v [] assets x = ok x
  draw v (a ∷ venues) assets x = do
    held ← idle h v x
    short ← sub_i128 assets held
    if leb_ℤ short (pos 0) then ok x else (do
      payable ← or_trap (o.max_withdraw x a)
      let take = min_ℤ short payable
      x' ←
          (if ltb_ℤ (pos 0) take
            then (do (paid, x1) ← or_trap (o.withdraw x a take h.me); ok x1)
            else ok x)
      draw v venues assets x')

  unfoldable pub send : Vault → T → Address → ℤ → Return T
  unfolding draw
  send v x to assets = do
    x' ← draw v v.venues assets x
    held ← idle h v x'
    fail_if (ltb_ℤ held assets) insufficient_liquidity
    c ← config v
    or_trap (h.transfer x' c.asset h.me to assets)

  unfoldable pub allocate : Vault × T → Address → ℤ → Return (Vault × T)
  unfolding manager_auth venue_index send
  allocate (v, x) adapter amount = do
    c ← manager_auth h v
    i ← venue_index v.venues adapter
    held ← (if leb_ℤ amount (pos 0) then ok (pos 0) else idle h v x)
    fail_if (leb_ℤ amount (pos 0) || ltb_ℤ held amount) invalid_amount
    (s, v') ← accrue_now h o v x
    x1 ← send v' x adapter amount
    (supplied, x2) ← or_trap (o.supply x1 adapter amount)
    ok (v', x2)

  -- What came back, measured here.
  unfoldable pub deallocate : Vault × T → Address → ℤ → Return (ℤ × (Vault × T))
  unfolding manager_auth venue_index
  deallocate (v, x) adapter amount = do
    c ← manager_auth h v
    i ← venue_index v.venues adapter
    (s, v') ← accrue_now h o v x
    before ← idle h v' x
    (paid, x') ← or_trap (o.withdraw x adapter amount h.me)
    after ← idle h v' x'
    returned ← sub_i128 after before
    ok (returned, (v', x'))
