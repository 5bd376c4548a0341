-- ===== src/Transcript/Numbers.antt =====
-- app/core/engine/result_parser.py: lists of rows and steps that are numbered one after the other.
use self_managed_agents.Base.{
  nat_eq, string_eq, ℕ, suc, ◌+◌, ◌≡◌, refl, ap, String, Bool, Option, none, some, List, [], ◌∷◌,
  ◌++◌, ◌==◌, length, update, arith,
}
use self_managed_agents.Transcript.Parse.{StepEntry, Row, set_last_empty, answer_step, answer_row}

-- The rows are numbered one after the other, from `n` on.
abbrev pub AreNumbered : ℕ → List Row → Type 0
AreNumbered n [] = Unit
AreNumbered n (r ∷ rs) = (r.step_index ≡ n) × AreNumbered (n + 1) rs

-- So are the steps.
abbrev pub AreCounted : ℕ → List StepEntry → Type 0
AreCounted n [] = Unit
AreCounted n (e ∷ es) = (e.step ≡ n) × AreCounted (n + 1) es

pub AreNumbered-append :
    (n : ℕ) (rs : List Row) (r : Row)
    → AreNumbered n rs
    → r.step_index ≡ n + length rs
    → AreNumbered n (rs ++ r ∷ [])
AreNumbered-append n [] r h e = (omega arith, tt)
AreNumbered-append n (x ∷ rs) r (p, h) e = (p, AreNumbered-append (n + 1) rs r h (omega arith))

pub AreCounted-append :
    (n : ℕ) (es : List StepEntry) (e : StepEntry)
    → AreCounted n es
    → e.step ≡ n + length es
    → AreCounted n (es ++ e ∷ [])
AreCounted-append n [] e h k = (omega arith, tt)
AreCounted-append n (x ∷ es) e (p, h) k = (p, AreCounted-append (n + 1) es e h (omega arith))

pub AreNumbered-update :
    (n : ℕ) (q : Row → Bool) (t : Option String) (rs : List Row)
    → AreNumbered n rs
    → AreNumbered n (update q (λ r. record r { tool_result = t }) rs)
AreNumbered-update n q t [] h = tt
AreNumbered-update n q t (r ∷ rs) (p, h) = (ground arith, AreNumbered-update (n + 1) q t rs h)

pub AreCounted-update :
    (n : ℕ) (q : StepEntry → Bool) (t : String) (es : List StepEntry)
    → AreCounted n es
    → AreCounted n (update q (λ e. record e { result = t }) es)
AreCounted-update n q t [] h = tt
AreCounted-update n q t (e ∷ es) (p, h) = (ground arith, AreCounted-update (n + 1) q t es h)

length-update {ℓ} :
    {A : Type ℓ} (q : A → Bool) (f : A → A) (xs : List A) → length (update q f xs) ≡ length xs
length-update q f [] = refl
length-update q f (x ∷ xs) = ap suc (length-update q f xs)

pub AreCounted-set_last_empty :
    (n : ℕ) (t : String) (es : List StepEntry)
    → AreCounted n es
    → AreCounted n (set_last_empty t es)
unfolding set_last_empty
AreCounted-set_last_empty n t [] h = tt
AreCounted-set_last_empty n t (e ∷ es) (p, h) =
    ground (arith, AreCounted-set_last_empty (n + 1) t es h)

pub length-set_last_empty :
    (t : String) (es : List StepEntry) → length (set_last_empty t es) ≡ length es
unfolding set_last_empty
length-set_last_empty t [] = refl
length-set_last_empty t (e ∷ es) = ground (arith, length-set_last_empty t es)

pub answered_rows :
    (n : ℕ) (o : Option ℕ) (t : String) (rs : List Row)
    → AreNumbered n rs
    → AreNumbered n (answer_row o t rs)
unfolding answer_row
answered_rows n (some i) t rs h = AreNumbered-update n (λ r. r.step_index == i) (some t) rs h
answered_rows n none t rs h = h

pub same_rows : (o : Option ℕ) (t : String) (rs : List Row) → length (answer_row o t rs) ≡ length rs
unfolding answer_row
same_rows (some i) t rs =
    length-update (λ r. r.step_index == i) (λ r. record r { tool_result = some t }) rs
same_rows none t rs = refl

pub answered_steps :
    (n : ℕ) (o : Option ℕ) (t : String) (es : List StepEntry)
    → AreCounted n es
    → AreCounted n (answer_step o t es)
unfolding answer_step
answered_steps n (some i) t es h = AreCounted-update n (λ e. e.step == i) t es h
answered_steps n none t es h = AreCounted-set_last_empty n t es h

pub same_steps :
    (o : Option ℕ) (t : String) (es : List StepEntry) → length (answer_step o t es) ≡ length es
unfolding answer_step
same_steps (some i) t es = length-update (λ e. e.step == i) (λ e. record e { result = t }) es
same_steps none t es = length-set_last_empty t es
