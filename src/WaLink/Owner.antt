-- ===== src/WaLink/Owner.antt =====
-- app/core/domain/wa_link_service.py: who a WhatsApp sender belongs to after a claim.
use self_managed_agents.Phone.{normalize_phone}
use self_managed_agents.Base.{
  Bool, if◌then◌else◌, where_, All-where, ◌∙◌, ◌++◌, where-update, ==_refl, nat_eq, string_eq,
  option_eq, ℕ, ◌≡◌, refl, sym, subst, ap, String, true, false, ◌||◌, Option, none, some, List, [],
  ◌∷◌, ◌==◌, update, All, All-update, contains, eq_iff, arith, Bool-cases, inl, inr,
}
use Prim.Native.String.append
use self_managed_agents.Base.Outcome.{ok}
use self_managed_agents.Base.Text.{strip, codes, is_prefix, take_text}
use self_managed_agents.Subscription.Data.{User}
use self_managed_agents.WaLink.{
  refused, ClaimResult, add_new, add_variants, Links, claim_wa_link_code, linked, link_account,
  archive_duplicates, is_duplicate, sender_variants, merged_id, archive, matches, or_second,
  link_identity, classify_sender_identity,
}
use self_managed_agents.WaLink.Once.{claim_wa_link_code-eq_linked}

-- the identifier of an archived user
abbrev IsMerged : String → Type 0
IsMerged v = is_prefix (codes "merged:") (codes v) ≡ true

merged_id-IsMerged : (old : String) → IsMerged (merged_id old)
unfolding take_text is_prefix
merged_id-IsMerged old =
    rw (append.cons, append.cons, append.cons, append.cons, append.cons, append.cons, append.cons)
      refl

abbrev pub AreUnmerged : List String → Type 0
AreUnmerged vs = All (λ v. is_prefix (codes "merged:") (codes v) ≡ false) vs

contains-merged :
    (v : String) (vs : List String) → IsMerged v → AreUnmerged vs → contains v vs ≡ false
contains-merged v [] m h = refl
contains-merged v (x ∷ vs) m (n, h) = elim (Bool-cases (x == v)) [
  | inl e ↦
      let same : x ≡ v = (eq_iff x v).0 e in
      let n : is_prefix (codes "merged:") (codes v) ≡ false = rw same at n in absurd cc
  | inr e ↦ rw e (contains-merged v vs m h)
]

abbrev pub AreOwned : List String → ℕ → String → List User → Type 0
AreOwned vs user identity us =
    All
      (λ u.
        (is_duplicate vs user u ≡ false)
        × ((u.id == user) ≡ true
            → (matches (identity ∷ []) u.phone_number || matches (identity ∷ []) u.wa_lid) ≡ true))
      us

archive-NotDuplicate :
    (vs : List String) (user : ℕ) (u : User)
    → AreUnmerged vs
    → is_duplicate vs user (archive u) ≡ false
unfolding is_duplicate
archive-NotDuplicate vs user u h =
    rw (contains-merged (merged_id u.external_id) vs (merged_id-IsMerged u.external_id) h) refl

archived-NotDuplicates :
    (vs : List String) (user : ℕ) (us : List User)
    → AreUnmerged vs
    → All (λ u. is_duplicate vs user u ≡ false) (update (is_duplicate vs user) archive us)
archived-NotDuplicates vs user [] h = tt
archived-NotDuplicates vs user (u ∷ us) h = elim (Bool-cases (is_duplicate vs user u)) [
  | inl e ↦ rw e (archive-NotDuplicate vs user u h, archived-NotDuplicates vs user us h)
  | inr e ↦ rw e (e, archived-NotDuplicates vs user us h)
]

identity_written :
    (identity : String) (real_phone lid : Option String) (u : User)
    → or_second real_phone lid ≡ some identity
    → (matches (identity ∷ []) (link_identity real_phone lid u).phone_number
        || matches (identity ∷ []) (link_identity real_phone lid u).wa_lid)
      ≡ true
identity_written identity none none u e = absurd cc
identity_written identity none (some b) u e =
    let same : b ≡ identity = cc in let k = (eq_iff identity b).1 (sym same) in ground arith
identity_written identity (some a) lid u e =
    let same : a ≡ identity = cc in let k = (eq_iff identity a).1 (sym same) in ground arith

link_identity-AreOwned :
    (vs : List String) (user : ℕ) (identity : String) (real_phone lid : Option String)
    → or_second real_phone lid ≡ some identity
    → (us : List User) → All (λ u. is_duplicate vs user u ≡ false) us
    → AreOwned vs user identity (update (λ x. x.id == user) (link_identity real_phone lid) us)
unfolding is_duplicate
link_identity-AreOwned vs user identity real_phone lid who us h =
    All-update (λ u. is_duplicate vs user u ≡ false) _ (λ x. x.id == user)
      (link_identity real_phone lid)
      (λ u _ same. (ground arith, λ _. identity_written identity real_phone lid u who))
      (λ u p other. (p, λ same. absurd cc)) us h

abbrev user_of : ClaimResult → ℕ
user_of (refused r) = 0
user_of (linked user identity archived) = user

-- After a claim no other row carries an identifier of the sender, and the account of the code
-- carries the sender's identity.
pub claim_wa_link_code-AreOwned :
    (code : Option String) (ids : List (Option String)) (now : ℕ) (s after : Links) (user : ℕ)
    (identity : String) (archived : List ℕ)
    → claim_wa_link_code code ids now s ≡ ok (linked user identity archived, after)
    → AreUnmerged (sender_variants ids identity)
    → AreOwned (sender_variants ids identity) user identity after.db.users
unfolding link_account archive_duplicates
claim_wa_link_code-AreOwned code ids now s after user identity archived went unmerged =
    let (l, u, _, _, who, done) =
      claim_wa_link_code-eq_linked code ids now s after user identity archived went in
    let vs = sender_variants ids identity in
    let rows : after.db.users
        ≡ update (λ x. x.id == u.id)
            (link_identity (classify_sender_identity ids).0 (classify_sender_identity ids).1)
            (update (is_duplicate vs u.id) archive s.db.users) =
      ap (λ p. p.1.db.users) done in
    let same : user ≡ u.id = ap (λ p. user_of p.0) done in
    let own =
      link_identity-AreOwned vs u.id identity (classify_sender_identity ids).0
        (classify_sender_identity ids).1 who _
        (archived-NotDuplicates vs u.id s.db.users unmerged) in
    subst (λ i. AreOwned vs i identity after.db.users) (sym same)
      (subst (λ us. AreOwned vs u.id identity us) (sym rows) own)

-- The sender's identity is among the identifiers that the claim collects.
contains-append :
    (x : String) (xs ys : List String) → contains x xs ≡ true → contains x (xs ++ ys) ≡ true
contains-append x [] ys h = absurd cc
contains-append x (y ∷ xs) ys h = ground (arith, contains-append x xs ys)

contains-append_self : (x : String) (xs : List String) → contains x (xs ++ x ∷ []) ≡ true
contains-append_self x [] = rw (==_refl x) refl
contains-append_self x (y ∷ xs) = ground (arith, contains-append_self x xs)

contains-add_new :
    (x y : String) (xs : List String) → contains x xs ≡ true → contains x (add_new y xs) ≡ true
contains-add_new x y xs h = ground (arith, contains-append x xs (y ∷ []))

contains-add_new_self :
    (x : String) (xs : List String) → (x == "") ≡ false → contains x (add_new x xs) ≡ true
contains-add_new_self x xs h = elim (Bool-cases (contains x xs)) [
  | inl e ↦ rw (h, e) e
  | inr e ↦ rw (h, e) (contains-append_self x xs)
]

pub sender_variants-contains :
    (ids : List (Option String)) (identity : String)
    → strip identity ≡ identity
    → (identity == "") ≡ false
    → contains identity (sender_variants ids identity) ≡ true
unfolding sender_variants
sender_variants-contains ids identity stripped full =
    let before = add_variants ids [] in
    contains-add_new identity (normalize_phone identity) (add_new (strip identity) before)
      (rw stripped (contains-add_new_self identity before full))

-- Neither write changes an id.
written_row :
    (u : User) (q : User → Bool) (f : User → User) (us : List User)
    → ((x : User) → (f x).id ≡ x.id)
    → where_ (λ x. x.id == u.id) us ≡ u ∷ []
    → (w : User) × (where_ (λ x. x.id == u.id) (update (λ x. x.id == u.id) f (update q archive us))
        ≡ w ∷ [])
written_row u q f us keeps row =
    let p : User → Bool = λ x. x.id == u.id in
    let w = if q u then archive u else u in
    (
      if p w then f w else w,
      where-update p p f (update q archive us) (λ x. ap (λ i. i == u.id) (keeps x))
          ∙ ap (update p f) (where-update p q archive us (λ x. refl) ∙ ap (update q archive) row),
    )

-- After a claim the account of the code is one row.
pub claim_wa_link_code-one_account :
    (code : Option String) (ids : List (Option String)) (now : ℕ) (s after : Links) (user : ℕ)
    (identity : String) (archived : List ℕ)
    → claim_wa_link_code code ids now s ≡ ok (linked user identity archived, after)
    → (u : User) × (where_ (λ x. x.id == user) after.db.users ≡ u ∷ []) × ((u.id == user) ≡ true)
unfolding link_account archive_duplicates
claim_wa_link_code-one_account code ids now s after user identity archived went =
    let (l, u, _, row, _, done) =
      claim_wa_link_code-eq_linked code ids now s after user identity archived went in
    let rows = ap (λ p. p.1.db.users) done in
    let same : user ≡ u.id = ap (λ p. user_of p.0) done in
    let (w, one) =
      written_row u (is_duplicate (sender_variants ids identity) u.id)
        (link_identity (classify_sender_identity ids).0 (classify_sender_identity ids).1) s.db.users
        (λ x. refl) row in
    let found : where_ (λ x. x.id == u.id) after.db.users ≡ w ∷ [] = rw rows one in
    let (own, _) =
      subst (λ l. All (λ x. (x.id == u.id) ≡ true) l) found
        (All-where (λ x. x.id == u.id) after.db.users) in
    (
      w,
      subst (λ i. where_ (λ x. x.id == i) after.db.users ≡ w ∷ []) (sym same) found,
      subst (λ i. (w.id == i) ≡ true) (sym same) own,
    )
