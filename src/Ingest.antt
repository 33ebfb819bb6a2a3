-- ===== src/Ingest.antt =====
-- internal/realtime/ingest.go: the backoff between sessions and the attempts to subscribe. A time
-- is a number of nanoseconds.
pub mod Sessions
use chzzk_djclass_chat.Base.{
  ℕ, suc, zero, ◌*◌, ◌≤◌, ◌≡◌, ◌⊎◌, inl, inr, refl, Bool, true, false, Option, none, some, List, [],
  ◌∷◌, All, min, arith, leb, ◌==◌, if◌then◌else◌, Bool-cases,
}

abbrev pub healthy_after : ℕ
healthy_after = 60000000000

abbrev pub subscribe_attempts : ℕ
subscribe_attempts = 3

-- The sleeps of the loop of `ingest`, given how long each session lasted.
unfoldable pub sleeps : ℕ → ℕ → ℕ → List ℕ → List ℕ
sleeps min_backoff max_backoff backoff [] = []
sleeps min_backoff max_backoff backoff (lasted ∷ rest) =
    let b = if leb healthy_after lasted then min_backoff else backoff in
    b ∷ sleeps min_backoff max_backoff (min (b * 2) max_backoff) rest

unfoldable pub ingest : ℕ → ℕ → List ℕ → List ℕ
unfolding sleeps
ingest min_backoff max_backoff lasted = sleeps min_backoff max_backoff min_backoff lasted

sleeps-bounded :
    (low high backoff : ℕ) (lasted : List ℕ)
    → low ≤ high
    → low ≤ backoff
    → backoff ≤ high
    → All (λ d. (low ≤ d) × (d ≤ high)) (sleeps low high backoff lasted)
unfolding sleeps
sleeps-bounded low high backoff [] o p q = tt
sleeps-bounded low high backoff (t ∷ rest) o p q = (
  elim (Bool-cases (leb healthy_after t)) [ inl e ↦ rw e (omega arith, o) | inr e ↦ rw e (p, q) ],
  sleeps-bounded low high (min ((if leb healthy_after t then low else backoff) * 2) high) rest o
      (ground (arith, o, p, q)) (omega arith),
)

-- With a minimal backoff of at most the maximal one, every sleep between two sessions lies
-- between the two, however long the sessions lasted.
ingest-bounded :
    (low high : ℕ) (lasted : List ℕ)
    → low ≤ high
    → All (λ d. (low ≤ d) × (d ≤ high)) (ingest low high lasted)
unfolding ingest
ingest-bounded low high lasted o = sleeps-bounded low high low lasted o (omega arith) o

-- How the goroutine of `subscribe` ends: it subscribed or its context is over, or it gave up.
pub data Ended : Type 0 where
  returned gave_up : Ended

-- The loop from an attempt on: its sleeps and its end. `call n` is whether the call of attempt `n`
-- succeeds or its context is over. `none` is the end of the fuel.
unfoldable pub subscribe_from : ℕ → (ℕ → Bool) → ℕ → ℕ → Option (List ℕ × Ended)
subscribe_from zero call low attempt = none
subscribe_from (suc fuel) call low attempt =
    let rest = subscribe_from fuel call low (suc attempt) in
    if call attempt
    then some ([], returned)
    else if attempt == subscribe_attempts
    then some ([], gave_up)
    else elim rest [ none ↦ none | some (ds, end) ↦ some (attempt * low ∷ ds, end) ]

unfoldable pub subscribe : (ℕ → Bool) → ℕ → Option (List ℕ × Ended)
unfolding subscribe_from
subscribe call low = subscribe_from subscribe_attempts call low 1

-- The attempts come to an end: the goroutine returns after the first call that succeeds, or gives
-- up when the three calls have failed; it sleeps once the minimal backoff after the first failure
-- and twice that after the second.
pub subscribe-ends :
    (call : ℕ → Bool) (low : ℕ)
    → ((call 1 ≡ true) × (subscribe call low ≡ some ([], returned)))
      ⊎ (((call 1 ≡ false) × (call 2 ≡ true) × (subscribe call low ≡ some (1 * low ∷ [], returned)))
          ⊎ (((call 1 ≡ false)
                × (call 2 ≡ false)
                × (call 3 ≡ true)
                × (subscribe call low ≡ some (1 * low ∷ 2 * low ∷ [], returned)))
              ⊎ ((call 1 ≡ false)
                  × (call 2 ≡ false)
                  × (call 3 ≡ false)
                  × (subscribe call low ≡ some (1 * low ∷ 2 * low ∷ [], gave_up)))))
unfolding subscribe subscribe_from
subscribe-ends call low = elim (Bool-cases (call 1)) [
  | inl a ↦ inl (a, rw (a, subscribe) refl)
  | inr a ↦ inr (elim (Bool-cases (call 2)) [
    | inl b ↦ inl (a, b, rw (a, b, subscribe) refl)
    | inr b ↦ inr (elim (Bool-cases (call 3)) [
      | inl c ↦ inl (a, b, c, rw (a, b, c, subscribe) refl)
      | inr c ↦ inr (a, b, c, rw (a, b, c, subscribe) refl)
    ])
  ])
]
