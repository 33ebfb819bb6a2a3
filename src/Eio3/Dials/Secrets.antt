-- ===== src/Eio3/Dials/Secrets.antt =====
-- The token of a session URL in the errors of internal/chzzk/eio3/eio3.go.
use chzzk_djclass_chat.Base.{
  ◌-◌, ◌≡◌, ◌≢◌, refl, ap, sym, ◌∙◌, true, false, Option, some, List, [], ◌∷◌, ◌++◌, length, arith,
  ==_iff,
}
use mathlib.Core.List.{append-nil}
use chzzk_djclass_chat.Base.Text.{Text, text, text_eq, text_eq_iff, has_prefix}
use chzzk_djclass_chat.Eio3.Dials.{
  Url, Urls, Handshake, Read, ends, not_dialled, done, socket_url, replace_from, replacement, hide,
  redact_err, on_endpoint, on_websocket, dial,
}

-- Nowhere in the first text, which the second follows, does an occurrence of the token begin.
abbrev pub Free : Text → Text → Text → Type 0
Free old [] rest = Unit
Free old (c ∷ s) rest = (has_prefix (c ∷ s ++ rest) old ≡ false) × Free old s rest

prefix-append : (s t : Text) → has_prefix (s ++ t) s ≡ true
unfolding has_prefix
prefix-append [] [] = refl
prefix-append [] (c ∷ t) = refl
prefix-append (c ∷ s) t = rw ((==_iff c c).1 refl) (prefix-append s t)

not_empty : (s : Text) → s ≢ [] → text_eq s [] ≡ false
not_empty s n = ground (arith, text_eq_iff s [])

module _ (urls : Urls) (old new' : Text) where
  copied :
      (s rest : Text)
      → Free old s rest
      → replace_from urls old new' 0 (s ++ rest) ≡ s ++ replace_from urls old new' 0 rest
  unfolding replace_from
  copied [] rest h = refl
  copied (c ∷ s) rest h = rw (h.0, replace_from) (ap (λ t. c ∷ t) (copied s rest h.1))

  skipped :
      (s rest : Text)
      → replace_from urls old new' (length s) (s ++ rest) ≡ replace_from urls old new' 0 rest
  unfolding replace_from
  skipped [] rest = refl
  skipped (c ∷ s) rest = skipped s rest

  unmatched : (s : Text) → Free old s [] → replace_from urls old new' 0 s ≡ s
  unfolding replace_from
  unmatched s h =
      ap (replace_from urls old new' 0) (sym (append-nil s)) ∙ copied s [] h ∙ append-nil s

replaced :
    (urls : Urls) (old new' rest : Text)
    → old ≢ []
    → replace_from urls old new' 0 (old ++ rest) ≡ new' ++ replace_from urls old new' 0 rest
unfolding replace_from
replaced urls [] new' rest h = absurd (h refl)
replaced urls (c ∷ s) new' rest h =
    rw (prefix-append (c ∷ s) rest, replace_from)
      (ap (λ t. new' ++ t)
        (ap (λ n. replace_from urls (c ∷ s) new' n (s ++ rest)) one_less
          ∙ skipped urls (c ∷ s) new' s rest))
  where
    one_less : length (c ∷ s) - 1 ≡ length s
    one_less = omega arith

replaced_once :
    (urls : Urls) (old new' before after : Text)
    → old ≢ []
    → Free old before (old ++ after)
    → Free old after []
    → replace_from urls old new' 0 (before ++ (old ++ after)) ≡ before ++ (new' ++ after)
replaced_once urls old new' before after n b a =
    copied urls old new' before (old ++ after) b
    ∙ ap (λ t. before ++ t)
        (replaced urls old new' after n ∙ ap (λ t. new' ++ t) (unmatched urls old new' after a))

-- How the message names the token between two texts, once: as it is, or as a query writes it. In no
-- other place does the one or the other occur.
pub data NamesOnce (urls : Urls) (auth before written after : Text) : Type 0 where
  as_it_is :
      written ≡ auth
      → Free auth before (auth ++ after)
      → Free auth after []
      → Free (urls.query_escape auth) (before ++ (replacement ++ after)) []
      → NamesOnce urls auth before written after
  escaped :
      written ≡ urls.query_escape auth
      → urls.query_escape auth ≢ []
      → Free auth (before ++ (urls.query_escape auth ++ after)) []
      → Free (urls.query_escape auth) before (urls.query_escape auth ++ after)
      → Free (urls.query_escape auth) after []
      → NamesOnce urls auth before written after

hidden :
    (urls : Urls) (auth before written after : Text)
    → auth ≢ []
    → NamesOnce urls auth before written after
    → hide urls auth (before ++ (written ++ after)) ≡ before ++ (replacement ++ after)
unfolding hide
hidden urls auth before written after n (as_it_is w b a e) =
    rw (w, not_empty auth n)
      (ap (replace_from urls (urls.query_escape auth) replacement 0)
          (replaced_once urls auth replacement before after n b a)
        ∙ unmatched urls (urls.query_escape auth) replacement (before ++ (replacement ++ after)) e)
hidden urls auth before written after n (escaped w m f b a) =
    rw (w, not_empty auth n)
      (ap (replace_from urls (urls.query_escape auth) replacement 0)
          (unmatched urls auth replacement (before ++ (urls.query_escape auth ++ after)) f)
        ∙ replaced_once urls (urls.query_escape auth) replacement before after m b a)

-- When the websocket cannot be dialled, and the message of the failure names the token of the URL
-- once, as it is or as a query writes it, the error of `Dial` is that message with a fixed text in
-- the token's place.
pub dial-redacted :
    (urls : Urls) (decode : Text → Handshake) (dial_websocket : Text → Option Text)
    (session_url url auth before written after : Text) (u : Url) (rs : List Read)
    → socket_url urls session_url ≡ done url
    → dial_websocket url ≡ some (before ++ (written ++ after))
    → urls.parse url ≡ some u
    → urls.query_get u.raw_query (text "auth") ≡ auth
    → auth ≢ []
    → NamesOnce urls auth before written after
    → (dial urls decode dial_websocket session_url rs).reading
      ≡ ends (not_dialled (before ++ (replacement ++ after)))
unfolding dial on_endpoint on_websocket redact_err
dial-redacted urls decode dial_websocket session_url url auth before written after u rs d e p q n
      h =
    rw (d, on_endpoint)
      (rw (e, on_websocket)
        (rw (p, redact_err)
          (rw q (ap (λ m. ends (not_dialled m)) (hidden urls auth before written after n h)))))
