-- ===== src/Subscription/Billing/Replay.antt =====
-- A payment reference is spent once: what has been booked under it refuses every later request.
use self_managed_agents.Base.{
  where-singleton, ◌<◌, nat_eq, string_eq, ℕ, String, ◌≡◌, ◌≢◌, refl, Bool, true, false, ◌||◌, List,
  [], ◌∷◌, contains, arith, ◌==◌, ==_refl, eq_iff,
}
use self_managed_agents.Base.Outcome.{ok, err, http}
use self_managed_agents.Subscription.Data.{Db, TokenTopup}
use self_managed_agents.Subscription.Billing.{
  upgrade_subscription, topup_tokens, check_reference_id_unique, upgrade_row, topup_row, Request,
  activate, upgrade, topup, handle, serve, TopUpResponse,
}
use self_managed_agents.Subscription.Billing.Consistency.{
  IsConsistent, references, activate-eq-ok, upgrade-eq-ok, topup-eq-ok, topup-IsConsistent,
  committed_keeps, serve-IsConsistent,
}

abbrev IsSpent : String → Db → Type 0
IsSpent ref db = contains ref (references db) ≡ true

or_true : (a b : Bool) → b ≡ true → (a || b) ≡ true
or_true a b h = ground arith

grow-IsSpent :
    (ref : String) (db db' : Db) (t : TokenTopup)
    → db'.topups ≡ t ∷ db.topups
    → IsSpent ref db
    → IsSpent ref db'
grow-IsSpent ref db db' t e h =
    rw e (or_true (t.reference_id == ref) (contains ref (references db)) h)

handle-IsSpent : (ref : String) (r : Request) (db : Db) → IsSpent ref db → IsSpent ref (handle r db)
unfolding handle
handle-IsSpent ref (activate id now user_id code) db s =
    committed_keeps (IsSpent ref) db _ s
      (λ _ db' h. rw ((activate-eq-ok id now user_id code db h).4) s)
handle-IsSpent ref (upgrade now user_id code other) db s =
    committed_keeps (IsSpent ref) db _ s (λ _ db' h.
      let (sub, plan, _, _, _, _, tops) = upgrade-eq-ok now user_id code other db h in
      grow-IsSpent ref db db' (upgrade_row user_id plan other sub) tops s)
handle-IsSpent ref (topup user_id tokens other) db s =
    committed_keeps (IsSpent ref) db _ s (λ _ db' h.
      let (sub, _, _, _, tops) = topup-eq-ok user_id tokens other db h in
      grow-IsSpent ref db db' (topup_row user_id tokens other sub) tops s)

serve-IsSpent :
    (ref : String) (rs : List Request) (db : Db) → IsSpent ref db → IsSpent ref (serve rs db)
unfolding serve
serve-IsSpent ref [] db s = s
serve-IsSpent ref (r ∷ rs) db s = serve-IsSpent ref rs (handle r db) (handle-IsSpent ref r db s)

-- A spent reference is refused with 409, by the top-up and by the upgrade.
check_reference_id_unique-eq-409 :
    (ref : String) (db : Db)
    → IsConsistent db
    → IsSpent ref db
    → check_reference_id_unique ref db ≡ err (http 409)
unfolding check_reference_id_unique
check_reference_id_unique-eq-409 ref db c s =
    let (t, found) = where-singleton (λ t. t.reference_id) ref db.topups c.references s in rw found

topup-IsSpent :
    (user_id tokens : ℕ) (ref : String) (db : Db) {r : TopUpResponse} {db' : Db}
    → topup_tokens user_id tokens ref db ≡ ok (r, db')
    → IsSpent ref db'
topup-IsSpent user_id tokens ref db h =
    let (sub, _, _, _, tops) = topup-eq-ok user_id tokens ref db h in
    rw tops (rw (==_refl ref) refl)

topup-reference_ne :
    (user_id tokens : ℕ) (ref : String) (db : Db) {r : TopUpResponse} {db' : Db}
    → topup_tokens user_id tokens ref db ≡ ok (r, db')
    → (ref == "") ≡ false
unfolding topup_tokens
topup-reference_ne user_id tokens ref db h = ground arith

-- Once a top-up with a payment reference has succeeded on consistent tables, then after any later
-- requests a second top-up under that reference is answered 409, whoever it names, so long as it
-- asks for tokens at all; and so is an upgrade under it to a plan other than "trial".
pub topup_replayed :
    (user_id tokens : ℕ) (ref : String) (db : Db) {r : TopUpResponse} {db' : Db} (rs : List Request)
    (now other more : ℕ) (code : String)
    → IsConsistent db
    → topup_tokens user_id tokens ref db ≡ ok (r, db')
    → 0 < more
    → code ≢ "trial"
    → (topup_tokens other more ref (serve rs db') ≡ err (http 409))
      × (upgrade_subscription now other code ref (serve rs db') ≡ err (http 409))
unfolding topup_tokens upgrade_subscription
topup_replayed user_id tokens ref db {db' = after} rs now other more code c h positive ne =
    let spent = serve-IsSpent ref rs after (topup-IsSpent user_id tokens ref db h) in
    let kept = serve-IsConsistent rs after (topup-IsConsistent user_id tokens ref db h c) in
    let refused = check_reference_id_unique-eq-409 ref (serve rs after) kept spent in
    let named = topup-reference_ne user_id tokens ref db h in
    (ground arith, ground (arith, eq_iff code "trial"))
