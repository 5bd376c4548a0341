-- ===== src/Phone/Tests.antt =====
-- Phone numbers on texts.
use self_managed_agents.Base.{◌≡◌, refl, true, some, nat_eq}
use self_managed_agents.Phone.{normalize_phone, is_probable_whatsapp_lid}

normalize_jid : normalize_phone "++628111@s.whatsapp.net" ≡ "628111"
unfolding normalize_phone
normalize_jid = refl

long_digits_are_lid : is_probable_whatsapp_lid (some "1234567890123456") ≡ true
unfolding is_probable_whatsapp_lid
long_digits_are_lid = refl
