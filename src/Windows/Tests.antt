-- ===== src/Windows/Tests.antt =====
-- Windows of 60 and 300 seconds, and one message delivered twice.
use self_managed_agents.Base.{
  ℕ, string_eq, ◌≡◌, refl, String, true, false, Option, none, some, List, [], ◌∷◌, arith,
}
use self_managed_agents.Base.Dict.{lookup, insert, remove}
use self_managed_agents.Windows.{
  spam_key, check_wa_spam_window, reset_wa_spam_window, outbound_key, normalize_wa_outbound_target,
  normalize_wa_outbound_source, check_wa_outbound_direct_window, is_duplicate_message,
}
use self_managed_agents.Windows.Exact.{
  Event, checked, cleared, recent, after, AreTimed, windows-count,
}
use self_managed_agents.Windows.Dedup.{see_all, is_duplicate_message-again}

abbrev chat : String
chat = "wa_spam:a1:628111"

abbrev messages : List Event
messages =
    checked chat 1050
    ∷ checked "wa_spam:a1:628222" 1040
    ∷ checked chat 1030
    ∷ cleared chat
    ∷ checked chat 980
    ∷ []

messages-AreTimed : AreTimed 1090 messages
messages-AreTimed = (omega arith, (omega arith, (omega arith, (omega arith, tt))))

-- the third in 60 seconds is too much where two are allowed, and one that came before is out
three :
    check_wa_spam_window none "a1" "s" "+628111@c.us" 2 60 1090 (after 60 messages)
    ≡ ((true, 3), after 60 (checked chat 1090 ∷ messages))
unfolding check_wa_spam_window after lookup insert remove
three = refl

windows_example :
    (check_wa_spam_window none "a1" "s" "+628111@c.us" 2 60 1090 (after 60 messages)
      ≡ ((true, 3), after 60 (checked (spam_key "a1" "s" "+628111@c.us") 1090 ∷ messages)))
    × (reset_wa_spam_window "a1" "s" "+628111@c.us" (after 60 messages)
        ≡ after 60 (cleared (spam_key "a1" "s" "+628111@c.us") ∷ messages))
    × (check_wa_outbound_direct_window none
          (some "WADEV_7")
          (some "628111@s.whatsapp.net")
          2
          60
          1090
          (after 60 messages)
        ≡ (
          (true, 1),
          after 60 (
              checked
                (outbound_key
                  (some "WADEV_7")
                  (normalize_wa_outbound_target (some "628111@s.whatsapp.net")))
                1090
              ∷ messages),
        ))
unfolding spam_key outbound_key normalize_wa_outbound_target normalize_wa_outbound_source recent
windows_example =
    windows-count "a1" "s" "+628111@c.us" (some "WADEV_7") (some "628111@s.whatsapp.net") 2 60 1090
      messages messages-AreTimed

abbrev show_none : Option ℕ → String
show_none t = "None"

first_time :
    (is_duplicate_message show_none none "dev" "628111" none (some "ID1") 1000 []).0 ≡ false
unfolding is_duplicate_message lookup
first_time = refl

again_example :
    (is_duplicate_message show_none none "dev" "628111" none (some "ID1") 1200 (
      see_all
        (("wa_dedup_msg:dev:628111:ID2", 1100) ∷ [])
        (is_duplicate_message show_none none "dev" "628111" none (some "ID1") 1000 []).1)).0
    ≡ true
again_example =
    is_duplicate_message-again show_none "dev" "628111" none (some "ID1") 1000 1200 []
      (("wa_dedup_msg:dev:628111:ID2", 1100) ∷ []) tt first_time (omega arith, tt) (omega arith)
