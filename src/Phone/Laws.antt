-- ===== src/Phone/Laws.antt =====
-- Normalised phone numbers.
use Prim.Native.Char.{code}
use Prim.Native.Nat.{ℕ}
use mathlib.Core.Bool.{and-eq-true_iff}
use self_managed_agents.Base.{
  ap, String, ◌≡◌, refl, Bool, true, false, not, ◌==◌, nat_eq, Bool-cases, inl, inr,
}
use self_managed_agents.Base.Text.{drop_while, take_while, all_chars}
use self_managed_agents.Phone.{normalize_phone}

-- the first character fails the test
abbrev pub Starts : (ℕ → Bool) → String → Type 0
Starts p String.[] = Unit
Starts p (String.◌∷◌ c s) = p (code c) ≡ false

drop_while-Starts : (p : ℕ → Bool) (s : String) → Starts p (drop_while p s)
unfolding drop_while
drop_while-Starts p String.[] = tt
drop_while-Starts p (String.◌∷◌ c s) = elim (Bool-cases (p (code c))) [
  | inl e ↦ rw e (drop_while-Starts p s)
  | inr e ↦ rw e e
]

drop_while_of_Starts : (p : ℕ → Bool) (s : String) → Starts p s → drop_while p s ≡ s
unfolding drop_while
drop_while_of_Starts p String.[] h = refl
drop_while_of_Starts p (String.◌∷◌ c s) h = rw h

take_while-Starts : (p q : ℕ → Bool) (s : String) → Starts p s → Starts p (take_while q s)
unfolding take_while
take_while-Starts p q String.[] h = tt
take_while-Starts p q (String.◌∷◌ c s) h = elim (Bool-cases (q (code c))) [
  | inl e ↦ rw e h
  | inr e ↦ rw e tt
]

take_while-all : (q : ℕ → Bool) (s : String) → all_chars q (take_while q s) ≡ true
unfolding take_while all_chars
take_while-all q String.[] = refl
take_while-all q (String.◌∷◌ c s) = elim (Bool-cases (q (code c))) [
  | inl e ↦ rw e (rw e (take_while-all q s))
  | inr e ↦ rw e
]

take_while_of_all : (q : ℕ → Bool) (s : String) → all_chars q s ≡ true → take_while q s ≡ s
unfolding take_while all_chars
take_while_of_all q String.[] h = refl
take_while_of_all q (String.◌∷◌ c s) h =
    let (first, rest) = (and-eq-true_iff (q (code c)) (all_chars q s)).0 h in
    rw first (ap (λ r. String.◌∷◌ c r) (take_while_of_all q s rest))

-- A normalised phone holds no "@" and starts with no "+", and normalising it again changes nothing.
pub normalize_phone_normal :
    (s : String)
    → (all_chars (λ c. not (c == b'@')) (normalize_phone s) ≡ true)
      × Starts (λ c. c == b'+') (normalize_phone s)
      × (normalize_phone (normalize_phone s) ≡ normalize_phone s)
unfolding normalize_phone
normalize_phone_normal s =
    let q : ℕ → Bool = λ c. not (c == b'@') in
    let p : ℕ → Bool = λ c. c == b'+' in
    let clean = take_while-all q (drop_while p s) in
    let bare = take_while-Starts p q (drop_while p s) (drop_while-Starts p s) in
    (
      clean,
      bare,
      rw (drop_while_of_Starts p (take_while q (drop_while p s)) bare)
          (take_while_of_all q _ clean),
    )
