-- ===== src/Tests/Demo.antt =====
-- Runs of internal/web/dev.go.
use chzzk_djclass_chat.Base.{◌≡◌, refl, none, some, [], ◌∷◌, map, get_elem?}
use chzzk_djclass_chat.Base.Int.{pos}
use chzzk_djclass_chat.Base.Text.{text, text_eq}
use chzzk_djclass_chat.Env.{exec_row, exec}
use chzzk_djclass_chat.Realtime.Hub.{subscribe, new}
use chzzk_djclass_chat.Store.{User}
use chzzk_djclass_chat.Tests.Hubs.{two}
use chzzk_djclass_chat.Tests.Services.{env}
use chzzk_djclass_chat.Web.Dev.{seed_sender, DevSender, dev_chat, inject_as, dev_senders, not_sent}

abbrev theorist : DevSender
theorist = record { id = text "dev-theory"; nickname = text "DEV 이론치"; label = [] }

-- The sender is seeded after the viewer.
seeded :
    map (λ (u : User). u.chzzk_nickname) (seed_sender theorist (some []) env).1.tables.users
    ≡ text "nick" ∷ text "DEV 이론치" ∷ []
unfolding seed_sender text_eq exec_row exec
seeded = refl

one_message :
    map
      (λ m. m.nickname)
      (elim (get_elem?
        (dev_chat (λ q. []) (text "abc") (text "dev-theory") [] (pos 0) two).0.heap
        0) [ none ↦ [] | some c ↦ c.buffer ])
    ≡ text "DEV 이론치" ∷ []
unfolding dev_chat text_eq subscribe new
one_message = refl

nobody :
    inject_as dev_senders (text "abc") (text "dev-theory") [] (pos 0) not_sent (new 2 3)
    ≡ (new 2 3, not_sent)
unfolding inject_as text_eq new
nobody = refl
