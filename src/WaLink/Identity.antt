-- ===== src/WaLink/Identity.antt =====
-- app/core/domain/wa_link_service.py, `_classify_sender_identity`: what the identity of a sender is.
use self_managed_agents.Base.{
  string_eq, ◌≡◌, sym, String, Bool, false, not, ◌||◌, ◌⊎◌, Option, none, some, List, [], ◌∷◌, ◌==◌,
  contains, All, arith, Bool-cases, inl, inr, or_empty,
}
use self_managed_agents.Base.Text.{strip}
use self_managed_agents.Phone.{normalize_phone}
use self_managed_agents.WaLink.{
  normalized_ids, lid_digits, first_where, classify_sender_identity, or_second,
}

abbrev AreFull : List (String × String) → Type 0
AreFull ids = All (λ v. (v.1 == "") ≡ false) ids

normalized_ids-AreFull : (raws : List (Option String)) → AreFull (normalized_ids raws)
unfolding normalized_ids
normalized_ids-AreFull [] = tt
normalized_ids-AreFull (raw ∷ raws) =
    elim (Bool-cases (strip (or_empty raw) == "" || normalize_phone (strip (or_empty raw)) == "")) [
      | inl e ↦ rw e (normalized_ids-AreFull raws)
      | inr e ↦ rw e (ground arith, normalized_ids-AreFull raws)
    ]

first_where-full :
    (p : String → Bool) (ids : List (String × String)) (d : String)
    → AreFull ids
    → first_where p ids ≡ some d
    → (d == "") ≡ false
first_where-full p [] d h found = absurd cc
first_where-full p ((v, digits) ∷ ids) d (full, h) found = elim (Bool-cases (p digits)) [
  | inl e ↦ let same : digits ≡ d = let q = rw e at found in cc in rw (sym same) full
  | inr e ↦ first_where-full p ids d h (rw e at found)
]

or_second-some :
    (a b : Option String) (d : String) → or_second a b ≡ some d → (a ≡ some d) ⊎ (b ≡ some d)
or_second-some none b d h = inr h
or_second-some (some v) b d h = inl h

-- An identity is not empty.
pub classify_sender_identity-full :
    (raws : List (Option String)) (identity : String)
    → or_second (classify_sender_identity raws).0 (classify_sender_identity raws).1 ≡ some identity
    → (identity == "") ≡ false
unfolding classify_sender_identity
classify_sender_identity-full raws identity h =
    let ids = normalized_ids raws in
    let lids = lid_digits ids in
    elim (or_second-some (first_where (λ d. not (contains d lids)) ids)
      (first_where (λ d. contains d lids) ids) identity h) [
        | inl e ↦
            first_where-full (λ d. not (contains d lids)) ids identity (normalized_ids-AreFull raws)
              e
        | inr e ↦
            first_where-full (λ d. contains d lids) ids identity (normalized_ids-AreFull raws) e
      ]
