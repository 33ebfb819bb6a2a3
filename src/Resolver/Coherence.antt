-- ===== src/Resolver/Coherence.antt =====
-- The badge cache of internal/resolver/resolver.go agrees with the tables.
use chzzk_djclass_chat.Base.{
  ℕ, ◌+◌, ◌≡◌, ◌≢◌, refl, ap, ◌∙◌, subst, ◌⊎◌, inl, inr, false, Option, none, some, List, [], All,
  arith, Option-cases,
}
use chzzk_djclass_chat.Base.Text.{Text, text_eq, text_eq_iff}
use chzzk_djclass_chat.Effects.{Result, db_failure, ok, err}
use chzzk_djclass_chat.Env.{Env, BadgeResult, pure, ◌>>◌, cache_get, cache_set, continue}
use chzzk_djclass_chat.Env.Laws.{ReadsOnly}
use chzzk_djclass_chat.Resolver.{resolve_stored, resolve_missed, resolve, ttl}
use chzzk_djclass_chat.Resolver.Truth.{truth, resolve_stored-truth}
use chzzk_djclass_chat.Store.{Tables}
use chzzk_djclass_chat.TtlCache.{Entry}
use chzzk_djclass_chat.TtlCache.Inv.{Inv}
use chzzk_djclass_chat.TtlCache.Members.{All-read, All-write, find-All}
use chzzk_djclass_chat.TtlCache.Refines.{get-read_entries, set-write_entries}
use chzzk_djclass_chat.TtlCache.Views.{entries, find_entry, read_entries}

-- The entry holds what the tables say of its key.
abbrev pub Agrees : Tables → Entry BadgeResult → Type 0
Agrees t x = x.value ≡ truth t x.key

pub record Coherent (e : Env) : Type 0 where
  pub cache_inv : Inv e.cache
  pub agree : All (Agrees e.tables) (entries e.cache.order)

-- The truth or a failure of the database, in an environment that is coherent over the same tables.
pub record Answers (t : Tables) (key : Text) (r : Result BadgeResult × Env) : Type 0 where
  pub answer : (r.0 ≡ ok (truth t key)) ⊎ (r.0 ≡ err db_failure)
  pub tables_kept : r.1.tables ≡ t
  pub coherent : Coherent r.1

read-Agrees :
    (t : Tables) (now : ℕ) (key : Text) (es : List (Entry BadgeResult)) (r : BadgeResult)
    → All (Agrees t) es
    → (read_entries now key es).1 ≡ some r
    → r ≡ truth t key
unfolding read_entries
read-Agrees t now key es r h e = elim (Option-cases (find_entry key es)) [
  | inl gone ↦ absurd (ground arith)
  | inr (x, here) ↦
      let (a, k) = find-All (Agrees t) key es x here h in (ground arith ∙ a ∙ ap (truth t) k)
]

pub Coherent-same : {e g : Env} → ReadsOnly e g → Coherent e → Coherent g
Coherent-same same c = record {
  cache_inv = rw (same.cache_same) c.cache_inv;
  agree = rw (same.tables_same, same.cache_same) c.agree;
}

-- Writing the truth to the cache.
set-Answers :
    (g : Env) (key : Text) (r : BadgeResult) (t : ℕ)
    → Coherent g
    → r ≡ truth g.tables key
    → Answers g.tables key ((cache_set key r t >> pure r) g)
unfolding cache_set
set-Answers g key r t c true_r =
    let (d, e, es, v, _) = set-write_entries g.cache g.now key r t c.cache_inv in
    let x : Entry BadgeResult = record { key = key; value = r; expires = g.now + t } in
    rw (e, cache_set)
      (record {
        answer = inl (ap ok true_r);
        tables_kept = refl;
        coherent = record {
          cache_inv = v;
          agree =
              rw es
                (All-write (Agrees g.tables) g.cache.max x (entries g.cache.order) true_r c.agree);
        };
      })

after_read :
    (g : Env) (key : Text) (res : Result BadgeResult)
    → Coherent g
    → (res ≡ ok (truth g.tables key)) ⊎ (res ≡ err db_failure)
    → Answers g.tables key (continue res (λ r. cache_set key r (ttl r.status) >> pure r) g)
after_read g key res c (inl h) = rw h (set-Answers g key (truth g.tables key) _ c refl)
after_read g key res c (inr h) =
    rw h (record { answer = inr refl; tables_kept = refl; coherent = c })

-- After a miss the answer is read from the tables, and written to the cache unless that failed.
missed-Answers :
    (e : Env) (key : Text) → Coherent e → Answers e.tables key (resolve_missed key none e)
unfolding resolve_missed
missed-Answers e key c =
    let (cases, same) = resolve_stored-truth key e in
    let g = (resolve_stored key e).1 in
    subst (λ t. Answers t key (resolve_missed key none e)) (same.tables_same)
      (after_read g key (resolve_stored key e).0 (Coherent-same same c)
        (rw (same.tables_same) cases))

-- The cache that `Get` leaves is coherent, and what it returns is the truth.
got-Answers :
    (e g : Env) (key : Text) (hit : Option BadgeResult)
    → g.tables ≡ e.tables
    → Coherent g
    → (hit ≡ none) ⊎ (hit ≡ some (truth e.tables key))
    → Answers e.tables key (resolve_missed key hit g)
unfolding resolve_missed
got-Answers e g key hit same c (inl h) =
    rw h (subst (λ t. Answers t key (resolve_missed key none g)) same (missed-Answers g key c))
got-Answers e g key hit same c (inr h) =
    rw h (record { answer = inl refl; tables_kept = same; coherent = c })

-- For a sender with an id, over a coherent cache, the resolver answers what the tables say of the
-- sender now, or with a failure of the database; it changes no table and keeps the cache coherent.
pub resolve-truth :
    (e : Env) (sender : Text)
    → sender ≢ []
    → Coherent e
    → Answers e.tables sender (resolve sender e)
unfolding resolve cache_get
resolve-truth e sender named c =
    let (d, got, es, v, _) = get-read_entries e.cache e.now sender c.cache_inv in
    let g : Env = record e { cache = d } in
    rw (anonymous, got, cache_get)
      (got-Answers e g sender (read_entries e.now sender (entries e.cache.order)).1 refl
        (record {
          cache_inv = v;
          agree = rw es (All-read (Agrees e.tables) e.now sender (entries e.cache.order) c.agree);
        })
        (read_cases (read_entries e.now sender (entries e.cache.order)).1 refl))
  where
    anonymous : text_eq sender [] ≡ false
    anonymous = ground (arith, text_eq_iff sender [])

    read_cases :
        (o : Option BadgeResult)
        → (read_entries e.now sender (entries e.cache.order)).1 ≡ o
        → (o ≡ none) ⊎ (o ≡ some (truth e.tables sender))
    read_cases none h = inl refl
    read_cases (some r) h =
        inr (ap some (read-Agrees e.tables e.now sender (entries e.cache.order) r c.agree h))
