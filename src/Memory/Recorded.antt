-- ===== src/Memory/Recorded.antt =====
-- What the recording of a run leaves in the memory, as a dictionary from keys to texts.
use Prim.Native.Char.{code}
use Prim.Native.String.append
use Prim.Native.String.{◌++◌ as join_text}
use self_managed_agents.Base.{
  nat_eq, string_eq, option_eq, ℕ, String, ◌≡◌, refl, sym, ap, subst, ◌∙◌, false, ◌&&◌, Option,
  some, List, ◌==◌, ==_refl, if◌then◌else◌, Bool-cases, inl, inr, arith, eq_iff,
}
use self_managed_agents.Memory.{Memory, get_memory}
use self_managed_agents.Memory.Laws.{IsUnique, same_entry, get_memory-upsert_memory}
use self_managed_agents.Memory.Runtime.{
  append_memory_line, Turn, daily_line, active_context, last_turn, longterm_line, value_of, write,
  write_text, recorded, record_turn, is_heartbeat, record_runtime_memory,
}

abbrev pub Dictionary : Type 0
Dictionary = String → Option String

-- a key set to a text
abbrev pub put : String → String → Dictionary → Dictionary
put key value d l = if key == l then some value else d l

-- a key set to a text that is not empty
abbrev pub put_text : String → String → Dictionary → Dictionary
put_text key value d l = if value == "" then d l else put key value d l

-- what a run sets: the day's line and the long-term line are appended to what was there
abbrev pub turn_dictionary : String → Turn → Dictionary → Dictionary
turn_dictionary today turn d =
    put "longterm" (append_memory_line (d "longterm") (longterm_line today turn) 80 8000) (
      put_text "last_generated_artifact" turn.artifact (
        put_text "last_attachment" turn.attachment (
          put "last_turn" (last_turn turn) (
            put "active_context" (active_context today turn) (
              put (join_text "daily:" today)
                (append_memory_line (d (join_text "daily:" today)) (daily_line today turn) 120 9000)
                d)))))

module _ (fresh : ℕ → ℕ) (a : ℕ) (s : Option String) where
  -- What one write makes of the table.
  abbrev pub Writes : (Dictionary → Dictionary) → List Memory → List Memory → Type 0
  Writes change table after =
      ((l : String) → recorded fresh a s l after ≡ change (λ k. recorded fresh a s k table) l)
      × ((b : ℕ) (t : Option String) (l : String)
          → (a == b && s == t) ≡ false
          → get_memory b l t after ≡ get_memory b l t table)
      × IsUnique after

  abbrev Goes : ((List Memory → List Memory) → List Memory) → List Memory → Type 0
  Goes run after = (next : List Memory → List Memory) → run next ≡ next after

  not_same :
      (b : ℕ) (t : Option String) (k l : String)
      → (a == b && s == t) ≡ false
      → same_entry a s k b t l ≡ false
  not_same b t k l h = ground arith

  write-Writes :
      (draw : ℕ) (k v : String) (table : List Memory)
      → IsUnique table
      → (after : List Memory) × Goes (λ next. write fresh a s draw k v next table) after
        × Writes (put k v) table after
  write-Writes draw k v table unique =
      let (m, after, went, holds, own, others, still) =
        get_memory-upsert_memory (fresh draw) a k v s table unique in
      (
        after,
        λ next. rw (write, went) refl,
        (
          λ l. elim (Bool-cases (k == l)) [
            | inl e ↦ rw e (
                subst (λ j. recorded fresh a s j after ≡ some v) ((eq_iff k l).0 e)
                  (ap value_of own ∙ ap some holds))
            | inr e ↦ rw e (ap value_of (others a s l (rw (==_refl a, ==_refl s, e) refl)))
          ],
          λ b t l h. others b t l (not_same b t k l h),
          still,
        ),
      )

  write_text-Writes :
      (draw : ℕ) (k v : String) (table : List Memory)
      → IsUnique table
      → (after : List Memory) × Goes (λ next. write_text fresh a s draw k v next table) after
        × Writes (put_text k v) table after
  write_text-Writes draw k v table unique = elim (Bool-cases (v == "")) [
    | inl e ↦ (table, λ next. rw e refl, (λ l. rw e refl, λ b t l h. refl, unique))
    | inr e ↦
        let (after, goes, (views, others, still)) = write-Writes draw k v table unique in
        (after, λ next. rw e (goes next), (λ l. rw e (views l), others, still))
  ]

abbrev first_code : String → ℕ
first_code String.[] = 0
first_code (String.◌∷◌ c s) = code c

first_daily : (today : String) → first_code (join_text "daily:" today) ≡ b'd'
first_daily today = rw append.cons refl

-- The key of a day is none of the others.
daily-other :
    (today key : String) → first_code key ≡ b'l' → (join_text "daily:" today == key) ≡ false
daily-other today key h = elim (Bool-cases (join_text "daily:" today == key)) [
  | inl e ↦
      let first : first_code (join_text "daily:" today) ≡ first_code key =
        ap first_code ((eq_iff (join_text "daily:" today) key).0 e) in
      absurd (omega (arith, first, h, first_daily today))
  | inr e ↦ e
]

module _ (fresh : ℕ → ℕ) (a : ℕ) (s : Option String) where
  -- Two changes one after the other, where the second looks at one key at a time.
  Writes-compose :
      (first second : Dictionary → Dictionary) (table mid after : List Memory)
      → ((d e : Dictionary) (l : String) → d l ≡ e l → second d l ≡ second e l)
      → Writes fresh a s first table mid
      → Writes fresh a s second mid after
      → Writes fresh a s (λ d. second (first d)) table after
  Writes-compose first second table mid after local (views, others, _) (views', others', still) = (
    λ l.
        views' l
        ∙ local (λ k. recorded fresh a s k mid) (first (λ k. recorded fresh a s k table)) l
            (views l),
    λ b t l h. others' b t l h ∙ others b t l h,
    still,
  )

put-local : (k v : String) (d e : Dictionary) (l : String) → d l ≡ e l → put k v d l ≡ put k v e l
put-local k v d e l h = ap (λ x. if k == l then some v else x) h

put_text-local :
    (k v : String) (d e : Dictionary) (l : String) → d l ≡ e l → put_text k v d l ≡ put_text k v e l
put_text-local k v d e l h = ap (λ x. if v == "" then x else if k == l then some v else x) h

-- The writes before that of the long-term line do not touch it.
abbrev before_longterm : String → Turn → Dictionary → Dictionary
before_longterm today turn d = put_text "last_generated_artifact" turn.artifact (
    put_text "last_attachment" turn.attachment (
      put "last_turn" (last_turn turn) (
        put "active_context" (active_context today turn) (
          put (join_text "daily:" today)
            (append_memory_line (d (join_text "daily:" today)) (daily_line today turn) 120 9000)
            d))))

longterm_kept :
    (today : String) (turn : Turn) (d : Dictionary)
    → before_longterm today turn d "longterm" ≡ d "longterm"
longterm_kept today turn d = ground (arith, daily-other today "longterm" refl)

module _ (fresh : ℕ → ℕ) (a : ℕ) (s : Option String) where
  ran :
      (today : String) (turn : Turn) (table t0 t1 t2 t3 t4 t5 : List Memory)
      → Goes fresh a s
          (λ next.
            write fresh a s 0
              (join_text "daily:" today)
              (append_memory_line
                (recorded fresh a s (join_text "daily:" today) table)
                (daily_line today turn)
                120
                9000)
              next
              table)
          t0
      → Goes fresh a s
          (λ next. write fresh a s 1 "active_context" (active_context today turn) next t0)
          t1
      → Goes fresh a s (λ next. write fresh a s 2 "last_turn" (last_turn turn) next t1) t2
      → Goes fresh a s (λ next. write_text fresh a s 3 "last_attachment" turn.attachment next t2) t3
      → Goes fresh a s
          (λ next. write_text fresh a s 4 "last_generated_artifact" turn.artifact next t3)
          t4
      → Goes fresh a s
          (λ next.
            write fresh a s 5 "longterm"
              (append_memory_line
                (recorded fresh a s "longterm" t4)
                (longterm_line today turn)
                80
                8000)
              next
              t4)
          t5
      → record_turn fresh a s today turn table ≡ t5
  unfolding record_turn
  ran today turn table t0 t1 t2 t3 t4 t5 go0 go1 go2 go3 go4 go5 =
      let n4 = λ (after : List Memory).
        write fresh a s 5 "longterm"
          (append_memory_line (recorded fresh a s "longterm" after) (longterm_line today turn) 80
            8000)
          (λ final. final) after in
      let n3 = write_text fresh a s 4 "last_generated_artifact" turn.artifact n4 in
      let n2 = write_text fresh a s 3 "last_attachment" turn.attachment n3 in
      let n1 = write fresh a s 2 "last_turn" (last_turn turn) n2 in
      let n0 = write fresh a s 1 "active_context" (active_context today turn) n1 in
      go0 n0 ∙ go1 n1 ∙ go2 n2 ∙ go3 n3 ∙ go4 n4 ∙ go5 (λ final. final)

  record_turn-Writes :
      (today : String) (turn : Turn) (table : List Memory)
      → IsUnique table
      → Writes fresh a s (turn_dictionary today turn) table (record_turn fresh a s today turn table)
  record_turn-Writes today turn table unique =
      let d = λ (k : String). recorded fresh a s k table in
      let daily_key = join_text "daily:" today in
      let daily = append_memory_line (d daily_key) (daily_line today turn) 120 9000 in
      let (t0, go0, w0) = write-Writes fresh a s 0 daily_key daily table unique in
      let (t1, go1, w1) =
        write-Writes fresh a s 1 "active_context" (active_context today turn) t0 w0.2 in
      let (t2, go2, w2) = write-Writes fresh a s 2 "last_turn" (last_turn turn) t1 w1.2 in
      let (t3, go3, w3) = write_text-Writes fresh a s 3 "last_attachment" turn.attachment t2 w2.2 in
      let (t4, go4, w4) =
        write_text-Writes fresh a s 4 "last_generated_artifact" turn.artifact t3 w3.2 in
      let line = longterm_line today turn in
      let long = append_memory_line (recorded fresh a s "longterm" t4) line 80 8000 in
      let (t5, go5, w5) = write-Writes fresh a s 5 "longterm" long t4 w4.2 in
      let p0 = put daily_key daily in
      let p1 = put "active_context" (active_context today turn) in
      let p2 = put "last_turn" (last_turn turn) in
      let p3 = put_text "last_attachment" turn.attachment in
      let p4 = put_text "last_generated_artifact" turn.artifact in
      let u1 =
        Writes-compose fresh a s p0 p1 table t0 t1
          (put-local "active_context" (active_context today turn)) w0 w1 in
      let u2 =
        Writes-compose fresh a s (λ e. p1 (p0 e)) p2 table t1 t2
          (put-local "last_turn" (last_turn turn)) u1 w2 in
      let u3 =
        Writes-compose fresh a s (λ e. p2 (p1 (p0 e))) p3 table t2 t3
          (put_text-local "last_attachment" turn.attachment) u2 w3 in
      let before : Writes fresh a s (before_longterm today turn) table t4 =
        Writes-compose fresh a s (λ e. p3 (p2 (p1 (p0 e)))) p4 table t3 t4
          (put_text-local "last_generated_artifact" turn.artifact) u3 w4 in
      let same : long ≡ append_memory_line (d "longterm") line 80 8000 =
        ap (λ old. append_memory_line old line 80 8000)
          (before.0 "longterm" ∙ longterm_kept today turn d) in
      let all : Writes fresh a s (turn_dictionary today turn) table t5 = (
        λ l.
            w5.0 l
            ∙ put-local "longterm" long (λ k. recorded fresh a s k t4)
                (before_longterm today turn d) l (before.0 l)
            ∙ ap (λ v. put "longterm" v (before_longterm today turn d) l) same,
        λ b t l h. w5.1 b t l h ∙ before.1 b t l h,
        w5.2,
      ) in
      subst (Writes fresh a s (turn_dictionary today turn) table)
        (sym (ran today turn table t0 t1 t2 t3 t4 t5 go0 go1 go2 go3 go4 go5)) all

  -- Where no entry is there twice: the recording of a heartbeat changes nothing. After that of any
  -- other run the memory of the agent in this scope is the old one with what the run sets, as a
  -- dictionary; the memories of other agents and scopes are as they were, and still no entry is there
  -- twice.
  pub record_runtime_memory-Writes :
      (today : String) (turn : Turn) (table : List Memory)
      → IsUnique table
      → Writes fresh a s
          (if is_heartbeat turn then (λ d. d) else turn_dictionary today turn)
          table
          (record_runtime_memory fresh a s today turn table)
  unfolding record_runtime_memory
  record_runtime_memory-Writes today turn table unique = elim (Bool-cases (is_heartbeat turn)) [
    | inl e ↦ rw (record_runtime_memory, e) (λ l. refl, λ b t l h. refl, unique)
    | inr e ↦ rw (record_runtime_memory, e) (record_turn-Writes today turn table unique)
  ]
