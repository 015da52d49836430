-- ===== src/Prelude/Maps.antt =====
-- Keys that can be compared, and contract storage as a function from keys to values.
use stellar_rfq.Prelude.{
  ℕ, ◌≡◌, refl, ◌≢◌, ◌↔◌, Bool, true, false, ◌&&◌, List, [], ◌∷◌, arith, ==_iff, inl, inr,
  Bool-cases, if◌then◌else◌,
}
use stellar_rfq.Prelude.{◌==◌ as nat_beq}

pub record Comparable {ℓ} (A : Type ℓ) : Type ℓ where
  pub same : A → A → Bool
  pub same_iff : (a b : A) → (same a b ≡ true) ↔ (a ≡ b)

infix 50 ◌==◌ ◌!=◌
abbrev pub ◌==◌ {ℓ} : {A : Type ℓ} ⦃e : Comparable A⦄ → A → A → Bool
◌==◌ ⦃e⦄ = e.same

abbrev pub ◌!=◌ {ℓ} : {A : Type ℓ} ⦃e : Comparable A⦄ → A → A → Bool
a != b = if a == b then false else true

instance abbrev pub nat_eq : Comparable ℕ
nat_eq = record { same = nat_beq; same_iff = ==_iff }

-- Byte strings: hashes, public keys, serialised values.
abbrev pub Bytes : Type 0
Bytes = List ℕ

unfoldable pub bytes_beq : Bytes → Bytes → Bool
bytes_beq [] [] = true
bytes_beq [] (_ ∷ _) = false
bytes_beq (_ ∷ _) [] = false
bytes_beq (a ∷ as') (b ∷ bs) = nat_beq a b && bytes_beq as' bs

bytes_beq_sound : (x y : Bytes) → bytes_beq x y ≡ true → x ≡ y
unfolding bytes_beq
bytes_beq_sound [] [] h = refl
bytes_beq_sound [] (_ ∷ _) h = cc
bytes_beq_sound (_ ∷ _) [] h = cc
bytes_beq_sound (a ∷ as') (b ∷ bs) h = ground (arith, bytes_beq_sound as' bs)

bytes_beq_refl : (x : Bytes) → bytes_beq x x ≡ true
unfolding bytes_beq
bytes_beq_refl [] = refl
bytes_beq_refl (a ∷ as') = ground (arith, bytes_beq_refl as')

pub bytes_beq_iff : (x y : Bytes) → (bytes_beq x y ≡ true) ↔ (x ≡ y)
bytes_beq_iff x y = (bytes_beq_sound x y, λ e. rw e (bytes_beq_refl y))

instance abbrev pub bytes_eq : Comparable Bytes
bytes_eq = record { same = bytes_beq; same_iff = bytes_beq_iff }

module _ {ℓ κ} {K : Type ℓ} {V : Type κ} ⦃e : Comparable K⦄ where
  -- The map with the entry of `k` set to `v`.
  abbrev pub update : (K → V) → K → V → K → V
  update f k v j = if e.same k j then v else f j

  pub update_self : (f : K → V) (k : K) (v : V) → update f k v k ≡ v
  update_self f k v = rw ((e.same_iff k k).1 refl)

  pub update_ne : (f : K → V) (k j : K) (v : V) → k ≢ j → update f k v j ≡ f j
  update_ne f k j v h = elim (Bool-cases (e.same k j)) [
    | inl same ↦ absurd (h ((e.same_iff k j).0 same))
    | inr differ ↦ rw differ
  ]
