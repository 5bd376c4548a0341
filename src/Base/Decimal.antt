-- ===== src/Base/Decimal.antt =====
-- `str` of a natural number, as f-strings write it, and that two numbers are never written alike.
use self_managed_agents.Base.Tests.{ltb, if◌then◌else◌, Bool-cases}
use Prim.Native.Nat.{ℕ, zero, suc, ◌+◌, ◌-◌, ◌*◌, ◌/◌, ◌%◌, ◌≤◌, ◌<◌}
use Prim.Native.Char.{Char, code}
use Prim.Native.String.{String, char_at}
use Prim.Native.String.append
use Prim.Native.String.{◌++◌ as join_text}
use mathlib.Core.Path.{◌≡◌, refl, sym, ap, ◌∙◌}
use mathlib.Core.Logic.{inl, inr}
use native.Mathlib.Omega.{arith}
use self_managed_agents.Base.Text.{drop_text, len_text}

abbrev digit : ℕ → Char
digit d = char_at "0123456789" d

-- the digits of n before those that are there; `fuel` is at least n
abbrev digits_before : ℕ → ℕ → String → String
digits_before zero n tail = String.◌∷◌ (digit n) tail
digits_before (suc fuel) n tail =
    let more = digits_before fuel (n / 10) (String.◌∷◌ (digit (n % 10)) tail) in
    if ltb n 10 then String.◌∷◌ (digit n) tail else more

unfoldable pub show_nat : ℕ → String
show_nat n = digits_before n n ""

-- the number that digits stand for, read after v
value_from : ℕ → String → ℕ
value_from v String.[] = v
value_from v (String.◌∷◌ c s) = value_from (v * 10 + (code c - 48)) s

digit-code : (d : ℕ) → d < 10 → code (digit d) - 48 ≡ d
digit-code zero h = refl
digit-code (suc zero) h = refl
digit-code (suc (suc zero)) h = refl
digit-code (suc (suc (suc zero))) h = refl
digit-code (suc (suc (suc (suc zero)))) h = refl
digit-code (suc (suc (suc (suc (suc zero))))) h = refl
digit-code (suc (suc (suc (suc (suc (suc zero)))))) h = refl
digit-code (suc (suc (suc (suc (suc (suc (suc zero))))))) h = refl
digit-code (suc (suc (suc (suc (suc (suc (suc (suc zero)))))))) h = refl
digit-code (suc (suc (suc (suc (suc (suc (suc (suc (suc zero))))))))) h = refl
digit-code (suc (suc (suc (suc (suc (suc (suc (suc (suc (suc d)))))))))) h =
    absurd (omega (arith, h))

value_from-digits_before :
    (fuel n : ℕ) (tail : String)
    → n ≤ fuel
    → value_from 0 (digits_before fuel n tail) ≡ value_from n tail
unfolding value_from
value_from-digits_before zero n tail h =
    ap (λ v. value_from v tail) (omega (arith, digit-code n (omega (arith, h))))
value_from-digits_before (suc fuel) n tail h = elim (Bool-cases (ltb n 10)) [
  | inl e ↦ rw e (ap (λ v. value_from v tail) (omega (arith, digit-code n (ground arith))))
  | inr e ↦ rw e (
      value_from-digits_before fuel (n / 10) (String.◌∷◌ (digit (n % 10)) tail) (ground arith)
      ∙ ap (λ v. value_from v tail) (omega (arith, digit-code (n % 10) (omega arith))))
]

pub show_nat-inj : (m n : ℕ) → show_nat m ≡ show_nat n → m ≡ n
unfolding show_nat value_from
show_nat-inj m n h =
    sym (value_from-digits_before m m "" (omega arith))
    ∙ ap (value_from 0) h
    ∙ value_from-digits_before n n "" (omega arith)

drop_text-zero : (t : String) → drop_text 0 t ≡ t
unfolding drop_text
drop_text-zero String.[] = refl
drop_text-zero (String.◌∷◌ c t) = refl

drop_text-join : (x t : String) → drop_text (len_text x) (join_text x t) ≡ t
unfolding drop_text
drop_text-join String.[] t = rw append.nil (drop_text-zero t)
drop_text-join (String.◌∷◌ c x) t = rw append.cons (ground (arith, drop_text-join x t))

pub join_text-inj : (x s t : String) → join_text x s ≡ join_text x t → s ≡ t
join_text-inj x s t h =
    sym (drop_text-join x s) ∙ ap (drop_text (len_text x)) h ∙ drop_text-join x t
