-- ===== src/WaLink/Once.antt =====
-- app/core/domain/wa_link_service.py: how often a code can be claimed.
use self_managed_agents.Base.{
  All-where, nat_eq, string_eq, option_eq, ℕ, ◌≡◌, refl, sym, subst, ap, String, true, Option, some,
  List, [], ◌∷◌, ◌==◌, leb, where_, update, arith, All, Bool-cases, Option-cases, inl, inr,
}
use self_managed_agents.Base.Outcome.{ok, scalar_one_or_none, scalar_one_or_none-some, >>=-eq-ok}
use self_managed_agents.Base.Text.{len_text}
use self_managed_agents.Subscription.Data.{User}
use self_managed_agents.WaLink.{
  newest_from, or_second, WaLinkCode, Links, claim_wa_link_code, refused, linked, is_unused, newest,
  normalize_wa_link_code, classify_sender_identity, link_account, no_identity, bad_length,
  not_found, mark_used, Refusal,
}

-- A row with the id of the code that was claimed is not unused after the claim.
where-mark_used :
    (code : String) (now id : ℕ) (identity : String) (ls : List WaLinkCode)
    → All (λ l. (l.id == id) ≡ true) (where_ (is_unused code) ls)
    → where_ (is_unused code) (update (λ l. l.id == id) (mark_used now identity) ls) ≡ []
unfolding is_unused
where-mark_used code now id identity [] h = refl
where-mark_used code now id identity (l ∷ ls) h = elim (Bool-cases (is_unused code l)) [
  | inl e ↦
      let (same, rest) = rw e at h in ground (arith, where-mark_used code now id identity ls rest)
  | inr e ↦ ground (arith, where-mark_used code now id identity ls (rw e at h))
]

-- A claim without an unused row of its code is refused.
pub claim_wa_link_code-none :
    (code : Option String) (ids : List (Option String)) (now : ℕ) (s : Links)
    → where_ (is_unused (normalize_wa_link_code code)) s.link_codes ≡ []
    → (r : Refusal) × (claim_wa_link_code code ids now s ≡ ok (refused r, s))
unfolding claim_wa_link_code
claim_wa_link_code-none code ids now s h =
    elim (Bool-cases (len_text (normalize_wa_link_code code) == 6)) [
      | inl e ↦
          elim (Option-cases
            (or_second (classify_sender_identity ids).0 (classify_sender_identity ids).1)) [
              | inl n ↦ (no_identity, rw (e, n) refl)
              | inr (i, k) ↦ (not_found, rw (e, k, h) refl)
            ]
      | inr e ↦ (bad_length, rw e refl)
    ]

-- The one row of an id, as the id of that row finds it.
the_user :
    (id : ℕ) (u : User) (us : List User)
    → scalar_one_or_none (where_ (λ x. x.id == id) us) ≡ ok (some u)
    → where_ (λ x. x.id == u.id) us ≡ u ∷ []
the_user id u us read =
    let only = scalar_one_or_none-some (where_ (λ x. x.id == id) us) u read in
    let (own, _) =
      subst (λ l. All (λ x. (x.id == id) ≡ true) l) only (All-where (λ x. x.id == id) us) in
    let same : u.id ≡ id = ground arith in
    subst (λ i. where_ (λ x. x.id == i) us ≡ u ∷ []) (sym same) only

-- What a claim that was accepted found, and that it wrote what `link_account` writes.
pub claim_wa_link_code-eq_linked :
    (code : Option String) (ids : List (Option String)) (now : ℕ) (s after : Links) (user : ℕ)
    (identity : String) (archived : List ℕ)
    → claim_wa_link_code code ids now s ≡ ok (linked user identity archived, after)
    → (link : WaLinkCode) × (u : User) × (newest
          (where_ (is_unused (normalize_wa_link_code code)) s.link_codes)
        ≡ some link)
      × (where_ (λ x. x.id == u.id) s.db.users ≡ u ∷ [])
      × (or_second (classify_sender_identity ids).0 (classify_sender_identity ids).1
          ≡ some identity)
      × ((linked user identity archived, after)
          ≡ link_account ids
              (classify_sender_identity ids).0
              (classify_sender_identity ids).1
              identity
              now
              link
              u
              s)
unfolding claim_wa_link_code link_account
claim_wa_link_code-eq_linked code ids now s after user identity archived went =
    elim (Bool-cases (len_text (normalize_wa_link_code code) == 6)) [
      | inl e ↦
          elim (Option-cases
            (or_second (classify_sender_identity ids).0 (classify_sender_identity ids).1)) [
              | inl n ↦ let q = rw (e, n) at went in absurd cc
              | inr (i, k) ↦
                  elim (Option-cases
                    (newest (where_ (is_unused (normalize_wa_link_code code)) s.link_codes))) [
                      | inl n ↦ let q = rw (e, k, n) at went in absurd cc
                      | inr (l, f) ↦
                          let q = rw (e, k, f) at went in
                          elim (Bool-cases (leb l.expires_at now)) [
                            | inl x ↦ let p = rw x at q in absurd cc
                            | inr x ↦
                                let p = rw x at q in
                                let (u, read, rest) =
                                  >>=-eq-ok
                                    (scalar_one_or_none
                                      (where_ (λ u. u.id == l.user_id) s.db.users))
                                    _ p in
                                elim (Option-cases u) [
                                  | inl n ↦ let z = rw n at rest in absurd cc
                                  | inr (v, y) ↦
                                      let z = rw y at rest in
                                      let row = the_user l.user_id v s.db.users (rw y at read) in
                                      (l, v, f, row, cc, cc)
                                ]
                          ]
                    ]
            ]
      | inr e ↦ let q = rw e at went in absurd cc
    ]

newest-eq_only :
    (l link : WaLinkCode) (ls : List WaLinkCode) → newest ls ≡ some l → ls ≡ link ∷ [] → link ≡ l
unfolding newest_from
newest-eq_only l link ls found one = let q = rw one at found in cc

eq_id : (l link : WaLinkCode) → link ≡ l → (link.id == l.id) ≡ true
eq_id l link e = let i : link.id ≡ l.id = ap (λ x. x.id) e in ground arith

-- A code of which one unused row was there is refused to everyone once it has been claimed.
pub claim_wa_link_code-once :
    (code again : Option String) (ids ids_later : List (Option String)) (now t : ℕ)
    (s after : Links) (user : ℕ) (identity : String) (archived : List ℕ) (link : WaLinkCode)
    → claim_wa_link_code code ids now s ≡ ok (linked user identity archived, after)
    → where_ (is_unused (normalize_wa_link_code code)) s.link_codes ≡ link ∷ []
    → normalize_wa_link_code again ≡ normalize_wa_link_code code
    → (r : Refusal) × (claim_wa_link_code again ids_later t after ≡ ok (refused r, after))
unfolding link_account
claim_wa_link_code-once code again ids ids_later now t s after user identity archived link went one
      same =
    let (l, u, found, _, _, done) =
      claim_wa_link_code-eq_linked code ids now s after user identity archived went in
    let this = newest-eq_only l link _ found one in
    let codes : after.link_codes
        ≡ update (λ x. x.id == l.id) (mark_used now identity) s.link_codes =
      cc in
    let all : All (λ x. (x.id == l.id) ≡ true)
        (where_ (is_unused (normalize_wa_link_code code)) s.link_codes) =
      subst (λ ls. All (λ x. (x.id == l.id) ≡ true) ls) (sym one) (eq_id l link this, tt) in
    let gone = where-mark_used (normalize_wa_link_code code) now l.id identity s.link_codes all in
    claim_wa_link_code-none again ids_later t after (rw (same, codes) gone)
