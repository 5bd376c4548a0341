-- ===== src/Windows/Fits.antt =====
-- app/api/wa_helpers.py and app/core/engine/wa_outbound_guard.py: the times that a window keeps of one
-- key, and what pruning them may change.
use self_managed_agents.Base.{
  string_eq, nat_eq, ℕ, suc, ◌-◌, ◌*◌, ◌≤◌, ◌≡◌, refl, sym, subst, ap, ◌∙◌, true, List, [], ◌∷◌,
  ◌++◌, ltb, leb, if◌then◌else◌, where_, where-append, length, length-append, All, All-append,
  All-imp, arith,
}
use self_managed_agents.Windows.{last_or, is_stale}

abbrev pub within : ℕ → ℕ → List ℕ → List ℕ
within window now ts = where_ (λ t. leb (now - t) window) ts

-- the times kept of a key: none after the last one, and in every later window as many as are due
pub record Fits (window clock : ℕ) (ts : List ℕ) (n : ℕ → ℕ) : Type 0 where
  pub below : All (λ t. t ≤ last_or 0 ts) ts
  pub past : last_or 0 ts ≤ clock
  pub exact_ : (now : ℕ) → clock ≤ now → length (within window now ts) ≡ n now

pub Fits-nil : (window clock : ℕ) → Fits window clock [] (λ _. 0)
Fits-nil window clock = record { below = tt; past = omega arith; exact_ = λ now h. refl }

pub Fits-later :
    (window clock now : ℕ) (ts : List ℕ) (n : ℕ → ℕ)
    → clock ≤ now
    → Fits window clock ts n
    → Fits window now ts n
Fits-later window clock now ts n h f = record {
  below = f.below;
  past = omega (arith, f.past, h);
  exact_ = λ t k. f.exact_ t (omega arith);
}

-- What is in the window later was in it before.
within-within :
    (window now t : ℕ) (ts : List ℕ)
    → now ≤ t
    → within window t (within window now ts) ≡ within window t ts
within-within window now t [] h = refl
within-within window now t (x ∷ ts) h = ground (arith, within-within window now t ts h)

within-old :
    (window now t last : ℕ) (ts : List ℕ)
    → All (λ x. x ≤ last) ts
    → ltb (window * 2) (now - last) ≡ true
    → now ≤ t
    → within window t ts ≡ []
within-old window now t last [] h s l = refl
within-old window now t last (x ∷ ts) (p, h) s l =
    ground (arith, within-old window now t last ts h s l)

last_or-append : (d t : ℕ) (ts : List ℕ) → last_or d (ts ++ t ∷ []) ≡ t
last_or-append d t [] = refl
last_or-append d t (x ∷ ts) = last_or-append x t ts

All-within :
    (window now c : ℕ) (ts : List ℕ) → All (λ x. x ≤ c) ts → All (λ x. x ≤ c) (within window now ts)
All-within window now c [] h = tt
All-within window now c (x ∷ ts) (p, h) = ground (arith, All-within window now c ts h)

length-one :
    (window now t : ℕ)
    → length (within window t (now ∷ [])) ≡ (if leb (t - now) window then 1 else 0)
length-one window now t = ground arith

pub Fits-pushed :
    (window clock now : ℕ) (ts : List ℕ) (n : ℕ → ℕ)
    → clock ≤ now
    → Fits window clock ts n
    → Fits window now
        (within window now ts ++ now ∷ [])
        (λ t. if leb (t - now) window then suc (n t) else n t)
Fits-pushed window clock now ts n h f = record {
  below =
      let kept = within window now ts in
      let old =
        All-imp (λ x. x ≤ last_or 0 ts) (λ x. x ≤ now) (λ x p. omega (arith, f.past, h)) ts
          f.below in
      subst (λ c. All (λ x. x ≤ c) (kept ++ now ∷ [])) (sym (last_or-append 0 now kept))
        (All-append (λ x. x ≤ now) kept (now ∷ []) (All-within window now now ts old)
          (omega arith, tt));
  past = omega (arith, last_or-append 0 now (within window now ts));
  exact_ = λ t k.
      let kept = within window now ts in
      ground (
        arith,
        ap length (where-append {0} (λ x. leb (t - x) window) kept (now ∷ [])),
        length-append {0} (within window t kept) (within window t (now ∷ [])),
        ap length (within-within window now t ts k),
        f.exact_ t (omega arith),
        length-one window now t,
      );
}

pub Fits-stale :
    (window now : ℕ) (ts : List ℕ) (n : ℕ → ℕ)
    → is_stale window now ts ≡ true
    → Fits window now ts n
    → Fits window now [] n
Fits-stale window now [] n s f = f
Fits-stale window now (x ∷ ts) n s f = record {
  below = tt;
  past = omega arith;
  exact_ = λ t k.
      ap length (sym (within-old window now t (last_or x ts) (x ∷ ts) f.below s k)) ∙ f.exact_ t k;
}
