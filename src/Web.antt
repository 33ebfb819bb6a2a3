-- ===== src/Web.antt =====
-- internal/web/middleware.go: where a visitor may be sent after the login.
pub mod Sites
pub mod Accounts
pub mod Login
pub mod Links
pub mod Routes
pub mod Keeps
pub mod Serves
pub mod Requests
pub mod Runs
pub mod Stored
pub mod Outcomes
pub mod Visits
pub mod Streams
pub mod Dev
pub mod Front
use chzzk_djclass_chat.Base.{
  ℕ, ◌≤◌, ◌≡◌, ◌≢◌, refl, ◌⊎◌, inl, inr, Bool, false, not, ◌||◌, [], ◌∷◌, All, any_of, ltb, ◌==◌,
  arith, Bool-cases, if◌then◌else◌,
}
use chzzk_djclass_chat.Base.Text.{Text, text, has_prefix}

unfoldable pub is_control : ℕ → Bool
is_control c = ltb c 32 || c == 127

unfoldable pub safe_next_path : Text → Text → Text
unfolding is_control has_prefix
safe_next_path next fallback =
    if not (has_prefix next (text "/"))
      || has_prefix next (text "//")
      || has_prefix next (b'/' ∷ 92 ∷ [])
    then fallback
    else if any_of is_control next
    then fallback
    else next

-- A path of the same origin: one slash, then neither a slash nor a backslash, and no character
-- that a browser drops.
abbrev pub IsLocal : Text → Type 0
IsLocal [] = ⊥
IsLocal (c ∷ []) = c ≡ b'/'
IsLocal (c ∷ d ∷ s) = (c ≡ b'/') × (d ≢ b'/') × (d ≢ 92)

no_control : (s : Text) → any_of is_control s ≡ false → All (λ c. (32 ≤ c) × (c ≢ 127)) s
unfolding is_control
no_control [] h = tt
no_control (c ∷ s) h = (ground (arith, h), no_control s (ground (arith, h)))

IsLocal-path :
    (next : Text)
    → (not (has_prefix next (text "/"))
        || has_prefix next (text "//")
        || has_prefix next (b'/' ∷ 92 ∷ []))
      ≡ false
    → IsLocal next
unfolding has_prefix
IsLocal-path [] h = ground (arith, h)
IsLocal-path (c ∷ []) h = ground (arith, h)
IsLocal-path (c ∷ d ∷ s) h = ground (arith, h)

-- The path after a login is the fallback, or the path that was asked for; in that case it starts
-- with one slash that neither a slash nor a backslash follows, and has no control character.
pub safe_next_path-IsLocal :
    (next fallback : Text)
    → (safe_next_path next fallback ≡ fallback)
      ⊎ ((safe_next_path next fallback ≡ next)
          × IsLocal next
          × All (λ c. (32 ≤ c) × (c ≢ 127)) next)
unfolding safe_next_path
safe_next_path-IsLocal next fallback =
    elim (Bool-cases (
      not (has_prefix next (text "/"))
      || has_prefix next (text "//")
      || has_prefix next (b'/' ∷ 92 ∷ []))) [
        | inl e ↦ inl (rw (e, safe_next_path) refl)
        | inr e ↦ elim (Bool-cases (any_of is_control next)) [
          | inl f ↦ inl (rw (e, f, safe_next_path) refl)
          | inr f ↦ inr (rw (e, f, safe_next_path) refl, IsLocal-path next e, no_control next f)
        ]
      ]
