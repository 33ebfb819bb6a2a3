-- ===== src/Web/Front/Headers.antt =====
-- The headers of `securityHeaders` in internal/web/middleware.go, in every answer.
use chzzk_djclass_chat.Base.{
  ◌≡◌, ◌≢◌, refl, ap, sym, ◌∙◌, ◌⊎◌, inl, inr, Bool, true, false, none, some, [], ◌∷◌, All, arith,
  Bool-cases,
}
use chzzk_djclass_chat.Base.Maps.{lookup, delete_key, lookup-delete_other}
use chzzk_djclass_chat.Base.Text.{Text, text, text_eq, text_eq_iff}
use chzzk_djclass_chat.Web.Front.{
  Http, Arrival, World, Answer, cross_origin, unmatched, moved, replied, dev_page, widget_page,
  streaming, file, healthy, unhealthy,
}
use chzzk_djclass_chat.Web.Front.Answers.{
  Headers, set_headers, security_headers, own_headers, reply_headers, stream_headers, headers,
  handler, csp_name, hsts_name, csp, widget_csp, hsts,
}
use chzzk_djclass_chat.Web.Sites.{
  Server, redirect, hx_redirect, problem, page, login_form, widget_settings, aborted, link_card,
}
use chzzk_djclass_chat.Web.Sites
use chzzk_djclass_chat.Web.Streams

abbrev pub is_widget : Answer → Bool
is_widget cross_origin = false
is_widget (unmatched s) = false
is_widget (moved path) = false
is_widget (replied r cookies) = false
is_widget (dev_page channel flash) = false
is_widget (widget_page id) = true
is_widget (streaming r) = false
is_widget (file s) = false
is_widget healthy = false
is_widget unhealthy = false

-- None of the headers has the name.
abbrev pub Other : Text → Headers → Type 0
Other q hs = All (λ p. text_eq p.0 q ≡ false) hs

set_headers-Other :
    (q : Text) (hs m : Headers) → Other q hs → lookup q (set_headers hs m) ≡ lookup q m
unfolding set_headers lookup
set_headers-Other q [] m h = refl
set_headers-Other q ((k, v) ∷ hs) m h =
    set_headers-Other q hs ((k, v) ∷ delete_key k m) h.1 ∙ passed
  where
    passed : lookup q ((k, v) ∷ delete_key k m) ≡ lookup q m
    passed = rw (h.0) (lookup-delete_other k q m (λ e. ground (arith, (text_eq_iff k q).1 e, h.0)))

-- A value stays where a header is set to nothing else.
set_headers-keeps :
    (q v : Text) (hs m : Headers)
    → All (λ p. p.0 ≡ q → p.1 ≡ v) hs
    → lookup q m ≡ some v
    → lookup q (set_headers hs m) ≡ some v
unfolding set_headers lookup
set_headers-keeps q v [] m h e = e
set_headers-keeps q v ((k, u) ∷ hs) m h e =
    set_headers-keeps q v hs ((k, u) ∷ delete_key k m) h.1 passed
  where
    passed : lookup q ((k, u) ∷ delete_key k m) ≡ some v
    passed = ground (arith, text_eq_iff k q, lookup-delete_other k q m, h.0)

-- A name that no handler sets but that of the widget's page.
abbrev Apart : Text → Type 0
Apart q =
    (text_eq (text "Content-Type") q ≡ false)
    × ((text_eq (text "Cache-Control") q ≡ false)
        × ((text_eq (text "HX-Redirect") q ≡ false)
            × (text_eq (text "X-Accel-Buffering") q ≡ false)))

reply-Other : (q : Text) (r : Sites.Reply) → Apart q → Other q (reply_headers r)
unfolding reply_headers
reply-Other q (redirect status target) a = tt
reply-Other q (hx_redirect target) a = (a.1.1.0, tt)
reply-Other q (problem status message) a = tt
reply-Other q (page name) a = (a.0, tt)
reply-Other q (login_form next) a = (a.0, tt)
reply-Other q (widget_settings id) a = (a.0, tt)
reply-Other q aborted a = tt
reply-Other q (link_card status card message kind) a = (a.0, tt)

stream-Other : (q : Text) (r : Streams.Reply) → Apart q → Other q (stream_headers r)
unfolding stream_headers
stream-Other q Streams.not_found a = tt
stream-Other q Streams.server_error a = tt
stream-Other q Streams.too_many a = tt
stream-Other q Streams.closing a = tt
stream-Other q (Streams.streamed p) a = (a.0, (a.1.0, (a.1.1.1, tt)))

own-Other :
    (q : Text) (x : Answer)
    → Apart q
    → (is_widget x ≡ true → text_eq csp_name q ≡ false)
    → Other q (own_headers x)
unfolding own_headers
own-Other q cross_origin a n = tt
own-Other q (unmatched s) a n = tt
own-Other q (moved path) a n = tt
own-Other q (replied r cookies) a n = (a.1.0, reply-Other q r a)
own-Other q (dev_page channel flash) a n = (a.1.0, (a.0, tt))
own-Other q (widget_page id) a n = (n refl, (a.0, tt))
own-Other q (streaming r) a n = stream-Other q r a
own-Other q (file s) a n = tt
own-Other q healthy a n = tt
own-Other q unhealthy a n = tt

abbrev pub sniffing_name : Text
sniffing_name = text "X-Content-Type-Options"

abbrev pub no_sniffing : Text
no_sniffing = text "nosniff"

-- A header that the library may set: none of `securityHeaders`, or the one that forbids sniffing.
abbrev pub IsLibraryHeader : Text × Text → Type 0
IsLibraryHeader p =
    (lookup p.0 (security_headers true) ≡ none) ⊎ ((p.0 ≡ sniffing_name) × (p.1 ≡ no_sniffing))

-- The headers of a protected answer.
pub record IsProtected (https : Bool) (x : Answer) (h : Headers) : Type 0 where
  pub own_policy : is_widget x ≡ true → lookup csp_name h ≡ some widget_csp
  pub policy : is_widget x ≡ false → lookup csp_name h ≡ some csp
  pub framing : lookup (text "X-Frame-Options") h ≡ some (text "DENY")
  pub sniffing : lookup sniffing_name h ≡ some no_sniffing
  pub referrer : lookup (text "Referrer-Policy") h ≡ some (text "same-origin")
  pub opener : lookup (text "Cross-Origin-Opener-Policy") h ≡ some (text "same-origin")
  pub permissions :
      lookup (text "Permissions-Policy") h ≡ some (text "geolocation=(), microphone=(), camera=()")
  pub transport : lookup hsts_name h ≡ lookup hsts_name (hsts https)

some-none : {A : Type 0} {a : A} → some a ≢ none
some-none e = cc

library-Other :
    (q u : Text) (hs : Headers)
    → lookup q (security_headers true) ≡ some u
    → text_eq sniffing_name q ≡ false
    → All IsLibraryHeader hs
    → Other q hs
library-Other q u [] e n h = tt
library-Other q u (p ∷ hs) e n h = (other p (h.0), library-Other q u hs e n h.1)
  where
    other : (p : Text × Text) → IsLibraryHeader p → text_eq p.0 q ≡ false
    other p (inl m) = elim (Bool-cases (text_eq p.0 q)) [
      | inr f ↦ f
      | inl f ↦ absurd (
          some-none (
            sym e ∙ sym (ap (λ k. lookup k (security_headers true)) ((text_eq_iff p.0 q).0 f)) ∙ m))
    ]
    other p (inr (m, v)) = ap (λ k. text_eq k q) m ∙ n

library-keeps :
    (hs : Headers) → All IsLibraryHeader hs → All (λ p. p.0 ≡ sniffing_name → p.1 ≡ no_sniffing) hs
unfolding lookup text_eq
library-keeps [] h = tt
library-keeps (p ∷ hs) h = (kept p (h.0), library-keeps hs h.1)
  where
    kept : (p : Text × Text) → IsLibraryHeader p → p.0 ≡ sniffing_name → p.1 ≡ no_sniffing
    kept p (inl m) s =
        let e : some no_sniffing ≡ none = sym (ap (λ k. lookup k (security_headers true)) s) ∙ m in
        cc
    kept p (inr (m, v)) s = v

-- The values that `securityHeaders` sets.
abbrev Secures : Bool → Headers → Type 0
Secures https m =
    (lookup csp_name m ≡ some csp)
    × ((lookup (text "X-Frame-Options") m ≡ some (text "DENY"))
        × ((lookup sniffing_name m ≡ some no_sniffing)
            × ((lookup (text "Referrer-Policy") m ≡ some (text "same-origin"))
                × ((lookup (text "Cross-Origin-Opener-Policy") m ≡ some (text "same-origin"))
                    × ((lookup (text "Permissions-Policy") m
                          ≡ some (text "geolocation=(), microphone=(), camera=()"))
                        × (lookup hsts_name m ≡ lookup hsts_name (hsts https)))))))

security-Secures : (https : Bool) → Secures https (set_headers (security_headers https) [])
unfolding set_headers lookup delete_key text_eq
security-Secures true = (refl, (refl, (refl, (refl, (refl, (refl, refl))))))
security-Secures false = (refl, (refl, (refl, (refl, (refl, (refl, refl))))))

module _ {S : Type 0} (http : Http S) (srv : Server S) where
  -- A header of `securityHeaders` that no handler and no library call sets stays.
  settled :
      (q u : Text) (x : Answer)
      → All IsLibraryHeader (http.library_headers x)
      → lookup q (security_headers true) ≡ some u
      → text_eq sniffing_name q ≡ false
      → Apart q
      → (is_widget x ≡ true → text_eq csp_name q ≡ false)
      → lookup q (headers http srv x) ≡ lookup q (set_headers (security_headers srv.https) [])
  unfolding headers
  settled q u x l e n a w =
      set_headers-Other q (http.library_headers x) _ (library-Other q u _ e n l)
      ∙ set_headers-Other q (own_headers x) _ (own-Other q x a w)

  own_policy-set :
      (x : Answer)
      → All IsLibraryHeader (http.library_headers x)
      → is_widget x ≡ true
      → lookup csp_name (headers http srv x) ≡ some widget_csp
  unfolding headers lookup text_eq own_headers set_headers delete_key
  own_policy-set (widget_page id) l h =
      set_headers-Other csp_name (http.library_headers (widget_page id)) _
        (library-Other csp_name csp _ refl refl l)
  own_policy-set cross_origin l h = cc
  own_policy-set (unmatched s) l h = cc
  own_policy-set (moved path) l h = cc
  own_policy-set (replied r cookies) l h = cc
  own_policy-set (dev_page channel flash) l h = cc
  own_policy-set (streaming r) l h = cc
  own_policy-set (file s) l h = cc
  own_policy-set healthy l h = cc
  own_policy-set unhealthy l h = cc

  sniffing-set :
      (x : Answer)
      → All IsLibraryHeader (http.library_headers x)
      → lookup sniffing_name (headers http srv x) ≡ some no_sniffing
  unfolding headers text_eq
  sniffing-set x l =
      set_headers-keeps sniffing_name no_sniffing (http.library_headers x) _ (library-keeps _ l) (
        set_headers-Other sniffing_name (own_headers x) _
          (own-Other sniffing_name x (refl, (refl, (refl, refl))) (λ t. refl))
        ∙ (security-Secures srv.https).1.1.0)

  protected :
      (x : Answer)
      → All IsLibraryHeader (http.library_headers x)
      → IsProtected srv.https x (headers http srv x)
  unfolding lookup text_eq
  protected x l =
      let b = security-Secures srv.https in
      record {
        own_policy = own_policy-set x l;
        policy =
            λ h. settled csp_name csp x l refl refl (refl, (refl, (refl, refl))) (λ t. cc) ∙ b.0;
        framing =
            settled (text "X-Frame-Options") (text "DENY") x l refl refl
              (refl, (refl, (refl, refl))) (λ t. refl)
            ∙ b.1.0;
        sniffing = sniffing-set x l;
        referrer =
            settled (text "Referrer-Policy") (text "same-origin") x l refl refl
              (refl, (refl, (refl, refl))) (λ t. refl)
            ∙ b.1.1.1.0;
        opener =
            settled (text "Cross-Origin-Opener-Policy") (text "same-origin") x l refl refl
              (refl, (refl, (refl, refl))) (λ t. refl)
            ∙ b.1.1.1.1.0;
        permissions =
            settled (text "Permissions-Policy") _ x l refl refl (refl, (refl, (refl, refl)))
              (λ t. refl)
            ∙ b.1.1.1.1.1.0;
        transport =
            settled hsts_name _ x l refl refl (refl, (refl, (refl, refl))) (λ t. refl)
            ∙ b.1.1.1.1.1.1;
      }

  -- Whatever the handler sets, and the library sets besides, which is none of the headers of
  -- `securityHeaders` but the one that forbids sniffing: every answer has all these headers, with the
  -- policy of the widget if it is the widget's page and the common one otherwise, and that for
  -- transport exactly if the site is served over https.
  pub handler-IsProtected :
      (dev : Bool) (a : Arrival S) (w : World)
      → ((x : Answer) → All IsLibraryHeader (http.library_headers x))
      → IsProtected srv.https (handler http srv dev a w).0 (handler http srv dev a w).1
  unfolding handler
  handler-IsProtected dev a w l = protected _ (l _)
