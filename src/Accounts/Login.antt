-- ===== src/Accounts/Login.antt =====
-- app/api/users.py and app/core/domain/wa_link_service.py together: who logs in with the number that
-- claimed a code.
use self_managed_agents.Base.{
  nat_eq, string_eq, is_value, ℕ, ◌≡◌, refl, sym, ap, ◌∙◌, String, true, false, ◌||◌, Option, none,
  some, List, [], ◌∷◌, ◌==◌, where_, contains, arith, Bool-cases, inl, inr, eq_iff,
}
use self_managed_agents.Base.Outcome.{ok}
use self_managed_agents.Base.Text.{strip}
use self_managed_agents.Subscription.Data.{User}
use self_managed_agents.Subscription.Provision.{has_identity}
use self_managed_agents.WaLink.{
  Links, claim_wa_link_code, linked, is_duplicate, sender_variants, matches,
}
use self_managed_agents.WaLink.Once.{claim_wa_link_code-eq_linked}
use self_managed_agents.WaLink.Owner.{
  AreOwned, AreUnmerged, claim_wa_link_code-AreOwned, claim_wa_link_code-one_account,
  sender_variants-contains,
}
use self_managed_agents.WaLink.Identity.{classify_sender_identity-full}
use self_managed_agents.Accounts.{find_phone_user}

is_value-matches :
    (x : String) (o : Option String) → matches (x ∷ []) o ≡ true → is_value o x ≡ true
is_value-matches x none h = absurd cc
is_value-matches x (some v) h =
    let same : x ≡ v = (eq_iff x v).0 (ground arith) in (eq_iff v x).1 (sym same)

matches-variant :
    (x : String) (vs : List String) (o : Option String)
    → contains x vs ≡ true
    → is_value o x ≡ true
    → matches vs o ≡ true
matches-variant x vs none c h = absurd cc
matches-variant x vs (some v) c h = let same : v ≡ x = (eq_iff v x).0 h in rw same c

has_identity-own :
    (u : User) (identity : String)
    → (matches (identity ∷ []) u.phone_number || matches (identity ∷ []) u.wa_lid) ≡ true
    → has_identity identity u ≡ true
unfolding has_identity
has_identity-own u identity h =
    ground (arith, is_value-matches identity u.phone_number, is_value-matches identity u.wa_lid)

has_identity-other :
    (vs : List String) (user : ℕ) (u : User) (identity : String)
    → contains identity vs ≡ true
    → is_duplicate vs user u ≡ false
    → (u.id == user) ≡ false
    → has_identity identity u ≡ false
unfolding has_identity is_duplicate
has_identity-other vs user u identity c h other = ground (
  arith,
  matches-variant identity vs (some u.external_id) c,
  matches-variant identity vs u.phone_number c,
  matches-variant identity vs u.wa_lid c,
)

-- Where every row is owned, the rows with the identity are the rows of the user.
has_identity-owned :
    (vs : List String) (user : ℕ) (identity : String) (us : List User)
    → contains identity vs ≡ true
    → AreOwned vs user identity us
    → where_ (has_identity identity) us ≡ where_ (λ u. u.id == user) us
has_identity-owned vs user identity [] c h = refl
has_identity-owned vs user identity (u ∷ us) c ((other, own), h) =
    elim (Bool-cases (u.id == user)) [
      | inl e ↦
          rw (has_identity-own u identity (own e), e)
            (ap (λ l. u ∷ l) (has_identity-owned vs user identity us c h))
      | inr e ↦
          rw (has_identity-other vs user u identity c other e, e)
            (has_identity-owned vs user identity us c h)
    ]

-- After a claim, the number that claimed the code logs in to the account of the code, and to no other.
pub find_phone_user-claim :
    (code : Option String) (ids : List (Option String)) (now : ℕ) (s after : Links) (user : ℕ)
    (identity : String) (archived : List ℕ)
    → claim_wa_link_code code ids now s ≡ ok (linked user identity archived, after)
    → AreUnmerged (sender_variants ids identity)
    → strip identity ≡ identity
    → (u : User) × (find_phone_user identity after.db ≡ ok u) × ((u.id == user) ≡ true)
unfolding find_phone_user
find_phone_user-claim code ids now s after user identity archived went unmerged stripped =
    let (_, _, _, _, who, _) =
      claim_wa_link_code-eq_linked code ids now s after user identity archived went in
    let full = classify_sender_identity-full ids identity who in
    let owned =
      claim_wa_link_code-AreOwned code ids now s after user identity archived went unmerged in
    let among = sender_variants-contains ids identity stripped full in
    let (u, one, same) =
      claim_wa_link_code-one_account code ids now s after user identity archived went in
    let found : where_ (has_identity identity) after.db.users ≡ u ∷ [] =
      has_identity-owned (sender_variants ids identity) user identity after.db.users among owned
      ∙ one in
    (u, rw (stripped, found) refl, same)
