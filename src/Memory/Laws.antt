-- ===== src/Memory/Laws.antt =====
-- Reading what was written.
use self_managed_agents.Base.{
  nat_eq, string_eq, option_eq, ℕ, ◌≡◌, ◌↔◌, Option-cases, refl, sym, ◌∙◌, ap, String, Bool, true,
  false, not, ◌&&◌, Option, none, some, List, [], ◌∷◌, ◌==◌, ==_refl, where_, update, where-update,
  update-eq_self, All-where, All-imp, length, ◌≤◌, arith, Bool-cases, inl, inr,
}
use self_managed_agents.Base.Outcome.{ok, first}
use self_managed_agents.Memory.{
  Memory, is_entry, new_memory, set_value, upsert_global, insert_or_update, upsert_memory,
  get_memory, delete_memory,
}

-- The rows of one entry: at most one, by the unique constraint and the select before an insert.
abbrev pub entries : ℕ → Option String → String → List Memory → List Memory
entries agent_id scope key table = where_ (is_entry agent_id scope key) table

-- The two entries are the same.
abbrev pub same_entry : ℕ → Option String → String → ℕ → Option String → String → Bool
same_entry a s k b t l = a == b && s == t && k == l

is_entry-new :
    (id a : ℕ) (s : Option String) (k v : String) → is_entry a s k (new_memory id a s k v) ≡ true
unfolding is_entry
is_entry-new id a s k v = rw (==_refl a, ==_refl s, ==_refl k)

all_true : (x y z : Bool) → (x && y && z) ≡ true → (x ≡ true) × (y ≡ true) × (z ≡ true)
all_true x y z h = (ground arith, ground arith, ground arith)

-- What is an entry of one key is an entry of another only if the keys are the same.
is_entry-same :
    (a : ℕ) (s : Option String) (k : String) (b : ℕ) (t : Option String) (l : String) (m : Memory)
    → is_entry a s k m ≡ true
    → is_entry b t l m ≡ same_entry a s k b t l
unfolding is_entry
is_entry-same a s k b t l m h =
    let (ha, hs, hk) = all_true (m.agent_id == a) (m.scope == s) (m.key == k) h in
    let ea : m.agent_id ≡ a = (nat_eq.beq_iff m.agent_id a).0 ha in
    let es : m.scope ≡ s = (option_eq.beq_iff m.scope s).0 hs in
    let ek : m.key ≡ k = (string_eq.beq_iff m.key k).0 hk in rw (ea, es, ek)

module _ (a : ℕ) (s : Option String) (k v : String) where
  is_entry-set_value :
      (b : ℕ) (t : Option String) (l : String) (m : Memory)
      → is_entry b t l (set_value v m) ≡ is_entry b t l m
  unfolding is_entry
  is_entry-set_value b t l m = refl

  -- the entries of another key after a write
  other_entries :
      (b : ℕ) (t : Option String) (l : String) (table : List Memory)
      → same_entry a s k b t l ≡ false
      → entries b t l (update (is_entry a s k) (set_value v) table) ≡ entries b t l table
  other_entries b t l table differ =
      where-update (is_entry b t l) (is_entry a s k) (set_value v) table (is_entry-set_value b t l)
      ∙ update-eq_self (is_entry a s k) (set_value v) (entries b t l table) (
          All-imp (λ m. is_entry b t l m ≡ true) (λ m. is_entry a s k m ≡ true → set_value v m ≡ m)
            (λ m h g. absurd (ground (arith, is_entry-same a s k b t l m g))) (entries b t l table)
            (All-where (is_entry b t l) table))

  own_entries :
      (m : Memory) (table : List Memory)
      → entries a s k table ≡ m ∷ []
      → entries a s k (update (is_entry a s k) (set_value v) table) ≡ set_value v m ∷ []
  own_entries m table h =
      let all = All-where (is_entry a s k) table in
      let mine : is_entry a s k m ≡ true = (rw h at all).0 in
      where-update (is_entry a s k) (is_entry a s k) (set_value v) table (is_entry-set_value a s k)
      ∙ rw (h, mine)

  added_other :
      (id b : ℕ) (t : Option String) (l : String) (table : List Memory)
      → same_entry a s k b t l ≡ false
      → entries b t l (new_memory id a s k v ∷ table) ≡ entries b t l table
  added_other id b t l table differ =
      rw (is_entry-same a s k b t l (new_memory id a s k v) (is_entry-new id a s k v) ∙ differ)

-- No key has two rows.
abbrev pub IsUnique : List Memory → Type 0
IsUnique table = (a : ℕ) (s : Option String) (k : String) → length (entries a s k table) ≤ 1

single : (ms : List Memory) (m : Memory) → length ms ≤ 1 → first ms ≡ some m → ms ≡ m ∷ []
single ms m h found = ground arith

-- the row of a key in a table without duplicates
the_row :
    (a : ℕ) (s : Option String) (k : String) (table : List Memory)
    → IsUnique table
    → (m : Memory) → first (entries a s k table) ≡ some m
    → entries a s k table ≡ m ∷ []
the_row a s k table h m found = single (entries a s k table) m (h a s k) found

-- What `upsert_memory` comes to on a table without duplicates, for either kind of scope.
upsert_memory-eq_ok :
    (id a : ℕ) (k v : String) (s : Option String) (table : List Memory)
    → IsUnique table
    → upsert_memory id a k v s table
      ≡ ok (insert_or_update id a s k v table (first (entries a s k table)))
unfolding upsert_memory upsert_global
upsert_memory-eq_ok id a k v none table h = ground (arith, h a none k)
upsert_memory-eq_ok id a k v (some scope) table h = refl

-- A write to one key leaves a table without duplicates.
IsUnique-after :
    (a : ℕ) (s : Option String) (k : String) (table after : List Memory)
    → IsUnique table
    → length (entries a s k after) ≤ 1
    → ((b : ℕ) (t : Option String) (l : String)
        → same_entry a s k b t l ≡ false
        → entries b t l after ≡ entries b t l table)
    → IsUnique after
IsUnique-after a s k table after h own others b t l = elim (Bool-cases (same_entry a s k b t l)) [
  | inl e ↦
      let (ha, hs, hk) = all_true (a == b) (s == t) (k == l) e in
      let ea : b ≡ a = sym ((nat_eq.beq_iff a b).0 ha) in
      let es : t ≡ s = sym ((option_eq.beq_iff s t).0 hs) in
      let ek : l ≡ k = sym ((string_eq.beq_iff k l).0 hk) in rw (ea, es, ek) own
  | inr e ↦ rw (others b t l e) (h b t l)
]

first-none : (ms : List Memory) → first ms ≡ none → ms ≡ []
first-none [] h = refl
first-none (m ∷ ms) h = cc

-- Without duplicates a write succeeds; then its key reads as what was written, every other key reads
-- as before, and there are still no duplicates.
pub get_memory-upsert_memory :
    (id a : ℕ) (k v : String) (s : Option String) (table : List Memory)
    → IsUnique table
    → (m : Memory) × (after : List Memory) × (upsert_memory id a k v s table ≡ ok (m, after))
      × (m.value_data ≡ v)
      × (get_memory a k s after ≡ some m)
      × ((b : ℕ) (t : Option String) (l : String)
          → same_entry a s k b t l ≡ false
          → get_memory b l t after ≡ get_memory b l t table)
      × IsUnique after
unfolding get_memory
get_memory-upsert_memory id a k v s table h = elim (Option-cases (first (entries a s k table))) [
  | inl e ↦
      let m = new_memory id a s k v in
      let nothing = first-none (entries a s k table) e in
      let own : entries a s k (m ∷ table) ≡ m ∷ [] = rw (is_entry-new id a s k v, nothing) in
      let others = added_other a s k v id in
      (
        m,
        m ∷ table,
        upsert_memory-eq_ok id a k v s table h ∙ rw e,
        refl,
        ap first own,
        λ b t l differ. ap first (others b t l table differ),
        IsUnique-after a s k table (m ∷ table) h (rw own (omega arith))
            (λ b t l differ. others b t l table differ),
      )
  | inr (m, e) ↦
      let after = update (is_entry a s k) (set_value v) table in
      let own = own_entries a s k v m table (the_row a s k table h m e) in
      (
        set_value v m,
        after,
        upsert_memory-eq_ok id a k v s table h ∙ rw e,
        refl,
        ap first own,
        λ b t l differ. ap first (other_entries a s k v b t l table differ),
        IsUnique-after a s k table after h (rw own (omega arith))
            (λ b t l differ. other_entries a s k v b t l table differ),
      )
]

where-nothing :
    (p : Memory → Bool) (table : List Memory) → where_ p (where_ (λ m. not (p m)) table) ≡ []
where-nothing p [] = refl
where-nothing p (m ∷ table) = ground (arith, where-nothing p table)

where-others :
    (p q : Memory → Bool) (table : List Memory)
    → ((m : Memory) → p m ≡ true → q m ≡ false)
    → where_ q (where_ (λ m. not (p m)) table) ≡ where_ q table
where-others p q [] h = refl
where-others p q (m ∷ table) h = ground (arith, where-others p q table h, h m)

-- After a deletion the key reads as missing and every other key as before, and the answer says
-- whether the key was there.
pub get_memory-delete_memory :
    (a : ℕ) (k : String) (s : Option String) (table : List Memory)
    → (get_memory a k s (delete_memory a k s table).1 ≡ none)
      × ((b : ℕ) (t : Option String) (l : String)
          → same_entry a s k b t l ≡ false
          → get_memory b l t (delete_memory a k s table).1 ≡ get_memory b l t table)
      × (((delete_memory a k s table).0 ≡ false) ↔ (get_memory a k s table ≡ none))
unfolding get_memory delete_memory
get_memory-delete_memory a k s table = (
  ap first (where-nothing (is_entry a s k) table),
  λ b t l differ. ap first (
      where-others (is_entry a s k) (is_entry b t l) table
        (λ m mine. is_entry-same a s k b t l m mine ∙ differ)),
  (λ h. ground arith, λ h. ground arith),
)
