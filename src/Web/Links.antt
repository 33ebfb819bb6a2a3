-- ===== src/Web/Links.antt =====
-- internal/web/link.go: the page of the link and the actions of its card.
use chzzk_djclass_chat.Base.{ℕ, true, false, Option, none, some, [], ◌++◌}
use chzzk_djclass_chat.Base.Text.{Text, text, text_eq, trim_space}
use chzzk_djclass_chat.Djclass.{Row}
use chzzk_djclass_chat.Effects.{
  Error, invalid_token, unavailable, not_linked, invalid_button, Result, ok, err,
}
use chzzk_djclass_chat.Env.{query}
use chzzk_djclass_chat.Link.{SyncResult, connect, sync, unlink, set_preferred}
use chzzk_djclass_chat.Link.Cards.{Card, card}
use chzzk_djclass_chat.Store.{User, user_by_id}
use chzzk_djclass_chat.Web.Sites.{
  Server, Request, Handler, aborted, link_card, call, limited, server_error, msg_too_many,
}

abbrev pub error : Text
error = text "error"

abbrev pub success : Text
success = text "success"

unfoldable pub connect_message : Error → Text
connect_message invalid_token = text "조회토큰이 유효하지 않습니다. 다시 확인해주세요."
connect_message unavailable = text "네트워크 오류가 발생했습니다."
connect_message x = text "연동 중 오류가 발생했습니다."

unfoldable pub sync_message : Error → Text
sync_message not_linked = text "먼저 V-ARCHIVE를 연동해주세요."
sync_message x = text "동기화 중 오류가 발생했습니다."

unfoldable pub prefer_message : Error → Text
prefer_message invalid_button = text "잘못된 버튼 선택입니다."
prefer_message x = text "저장 중 오류가 발생했습니다."

module _ {S : Type 0} (srv : Server S) where
  unfoldable pub shown : ℕ → Text → Text → Result Card → Handler S
  shown status msg kind (ok c) s = (link_card status c msg kind, s)
  shown status msg kind (err x) s = (server_error, s)

  unfoldable pub reloaded : ℕ → Text → Text → Result (Option User) → Handler S
  unfolding shown
  reloaded status msg kind (ok (some u)) s = call (card u) (shown status msg kind) s
  reloaded status msg kind (ok none) s = (server_error, s)
  reloaded status msg kind (err x) s = (server_error, s)

  -- `renderCardStatus`
  unfoldable pub render_card : ℕ → User → Text → Text → Handler S
  unfolding reloaded
  render_card status u msg kind =
      call (query (λ t. user_by_id u.id t.users)) (reloaded status msg kind)

  unfoldable pub too_many : User → Handler S
  unfolding render_card
  too_many u = render_card 429 u msg_too_many error

  unfoldable pub link_page : User → Handler S
  unfolding shown
  link_page u = call (card u) (shown 200 [] [])

  unfoldable pub connected : User → Result SyncResult → Handler S
  unfolding connect_message render_card
  connected u (err x) = render_card 200 u (connect_message x) error
  connected u (ok r) = render_card 200 u (text "연동 완료! 이제 채팅에서 DJ CLASS가 표시됩니다.") success

  unfoldable pub connect_token : User → Text → Handler S
  unfolding connected render_card
  connect_token u token = elim (text_eq token []) [
    | true ↦ render_card 200 u (text "조회토큰을 입력하세요.") error
    | false ↦ call (connect srv.link u token) (connected u)
  ]

  unfoldable pub link_connect : Request → User → Handler S
  unfolding connect_token too_many
  link_connect r u =
      limited r (text "link") 5 (too_many u) (connect_token u (trim_space (r.form (text "token"))))

  unfoldable pub synced_best : User → Option Row → Handler S
  unfolding render_card
  synced_best u none s = (aborted, s)
  synced_best u (some best) s =
      render_card 200 u
        (text "DJ CLASS 동기화 완료: " ++ srv.sprint best.button ++ text "B " ++ best.class) success s

  unfoldable pub synced : User → Result SyncResult → Handler S
  unfolding sync_message render_card synced_best
  synced u (err x) = render_card 200 u (sync_message x) error
  synced u (ok r) = elim r.done [
    | true ↦ synced_best u r.highest
    | false ↦ elim r.stale [
      | true ↦
          render_card 200 u (text "DJ CLASS 정보를 찾을 수 없습니다. V-ARCHIVE 닉네임이 바뀌었다면 다시 연동해주세요.") error
      | false ↦ render_card 200 u (text "동기화할 DJ CLASS 정보가 없습니다.") error
    ]
  ]

  unfoldable pub link_sync : Request → User → Handler S
  unfolding synced too_many
  link_sync r u = limited r (text "sync") 3 (too_many u) (call (sync srv.link u) (synced u))

  unfoldable pub unlinked_card : User → Result (Unit {0}) → Handler S
  unfolding render_card
  unlinked_card u (err x) = render_card 200 u (text "연동 해제 중 오류가 발생했습니다.") error
  unlinked_card u (ok r) = render_card 200 u (text "V-ARCHIVE 연동을 해제했습니다.") success

  unfoldable pub link_unlink : User → Handler S
  unfolding unlinked_card
  link_unlink u = call (unlink u) (unlinked_card u)

  unfoldable pub preferred : User → Result (Unit {0}) → Handler S
  unfolding prefer_message render_card
  preferred u (err x) = render_card 200 u (prefer_message x) error
  preferred u (ok r) = render_card 200 u [] []

  unfoldable pub link_preferred : Request → User → Handler S
  unfolding preferred too_many
  link_preferred r u =
      limited r (text "pref") 10 (too_many u)
        (call (set_preferred u (r.form (text "button"))) (preferred u))
