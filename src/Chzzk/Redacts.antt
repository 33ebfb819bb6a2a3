-- ===== src/Chzzk/Redacts.antt =====
-- What the errors of internal/chzzk/client.go say: nothing of a query, a token or a body.
use chzzk_djclass_chat.Base.{◌≡◌, refl, ap, Option}
use chzzk_djclass_chat.Base.Text.{Text}
use chzzk_djclass_chat.Chzzk.{
  Client, Sent, url_error, unmade, unanswered, cut, answered, Outcome, given, redact_url,
  read_answer, then_do, decode_content, do_json, do_call, marshalled, Body,
}

-- Two requests that end alike: in the same way, or both without an answer and for one cause, whatever
-- their errors quote.
pub data Alike : Sent → Sent → Type 0 where
  same : (s : Sent) → Alike s s
  quoting :
      (op op' quoted quoted' cause : Text)
      → Alike (unanswered (url_error op quoted cause)) (unanswered (url_error op' quoted' cause))

-- Two requests are told apart only by what an error may not say.
read_answer-redacted :
    (method u v : Text) (s t : Sent)
    → redact_url u ≡ redact_url v
    → Alike s t
    → read_answer method u s ≡ read_answer method v t
unfolding read_answer
read_answer-redacted method u v s t h a = by_case a
  where
    by_case : {s t : Sent} → Alike s t → read_answer method u s ≡ read_answer method v t
    by_case (same (unmade cause)) = refl
    by_case (same (unanswered x)) = rw h refl
    by_case (same (cut cause)) = refl
    by_case (same (answered status raw)) = rw h refl
    by_case (quoting op op' quoted quoted' cause) = rw h refl

-- For two calls with the same method whose URLs differ in the query at most, with any two tokens
-- and any two bodies that are encoded without an error, which end alike but for what the errors of
-- the HTTP client quote: the results are the same, and so are the errors, which carry nothing of the
-- query, the token, the body or what was quoted.
pub do_json-redacted :
    (c : Client) {A : Type 0} (decode : Text → Outcome A) (method u v bearer bearer' : Text)
    (body body' : Option Body) (raw raw' : Option Text)
    → redact_url u ≡ redact_url v
    → marshalled c body ≡ given raw
    → marshalled c body' ≡ given raw'
    → Alike (c.send method u bearer raw) (c.send method v bearer' raw')
    → do_json c decode method u bearer body ≡ do_json c decode method v bearer' body'
unfolding do_json do_call
do_json-redacted c decode method u v bearer bearer' body body' raw raw' h m m' alike =
    rw (m, m')
      (ap (λ o. then_do o (decode_content c decode))
        (read_answer-redacted method u v (c.send method u bearer raw) (c.send method v bearer' raw')
          h alike))
