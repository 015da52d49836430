-- ===== src/Shares/Balances.antt =====
-- Balances as a list of entries, and their sum.
use stellar_rfq.Prelude.{
  sym, ap, ◌∙◌, ◌≡◌, ◌≢◌, List, [], ◌∷◌, arith, inl, inr, Bool-cases, if◌then◌else◌, ◌==◌,
}
use stellar_rfq.Prelude.Int.{ℤ, pos, ◌+ℤ◌, int_laws}
use stellar_rfq.Types.{Address}

abbrev pub Entries : Type 0
Entries = List (Address × ℤ)

unfoldable pub get : Entries → Address → ℤ
get [] who = pos 0
get ((k, v) ∷ l) who = if k == who then v else get l who

unfoldable pub put : Entries → Address → ℤ → Entries
put [] who v = (who, v) ∷ []
put ((k, old) ∷ l) who v = if k == who then (k, v) ∷ l else (k, old) ∷ put l who v

unfoldable pub total : Entries → ℤ
total [] = pos 0
total ((k, v) ∷ l) = v +ℤ total l

pub get-put : (l : Entries) (who : Address) (v : ℤ) → get (put l who v) who ≡ v
unfolding get put
get-put [] who v = ground arith
get-put ((k, old) ∷ l) who v = ground (arith, get-put l who v)

pub get-put-ne :
    (l : Entries) (who other : Address) (v : ℤ)
    → who ≢ other
    → get (put l who v) other ≡ get l other
unfolding get put
get-put-ne [] who other v d = ground arith
get-put-ne ((k, old) ∷ l) who other v d = ground (arith, get-put-ne l who other v d)

assoc : (a b c : ℤ) → (a +ℤ b) +ℤ c ≡ a +ℤ (b +ℤ c)
assoc a b c = omega int_laws

carry : (a t t' g v : ℤ) → t' +ℤ g ≡ t +ℤ v → (a +ℤ t') +ℤ g ≡ (a +ℤ t) +ℤ v
carry a t t' g v e = assoc a t' g ∙ ap (λ z. a +ℤ z) e ∙ sym (assoc a t v)

-- Setting an entry moves the sum by as much as the entry.
pub total-put :
    (l : Entries) (who : Address) (v : ℤ) → total (put l who v) +ℤ get l who ≡ total l +ℤ v
unfolding get put total
total-put [] who v = omega int_laws
total-put ((k, old) ∷ l) who v = elim (Bool-cases (k == who)) [
  | inl same ↦ rw same (omega int_laws)
  | inr differ ↦
      rw differ (carry old (total l) (total (put l who v)) (get l who) v (total-put l who v))
]
