-- ===== src/Link.antt =====
-- internal/link/link.go: linking a viewer to V-ARCHIVE, syncing, unlinking, the preferred button
-- and the daily sync. V-ARCHIVE is the interface `VArchive` of the source.
pub mod Lawful
pub mod Commits
pub mod Rows
pub mod Safety
pub mod Effect
pub mod Daily
pub mod Cards
pub mod Races
pub mod Connects
use chzzk_djclass_chat.Base.{
  ℕ, suc, ◌+◌, ◌*◌, ◌-◌, Bool, true, false, not, ◌&&◌, ◌||◌, Option, none, some, List, [], ◌∷◌, map,
  leb, ltb, ◌==◌, if◌then◌else◌, any_of,
}
use chzzk_djclass_chat.Base.Int.{ℤ, pos, negsuc, int_eq}
use chzzk_djclass_chat.Base.Text.{Text, text, text_eq}
use chzzk_djclass_chat.Djclass
use chzzk_djclass_chat.Djclass.{Row, auto}
use chzzk_djclass_chat.Effects.{Error, db_failure, not_linked, invalid_button, Result, ok, err}
use chzzk_djclass_chat.Env.{Env, M, pure, fail, ◌>>=◌, ◌>>◌, query, exec, write_tx, invalidate_user}
use chzzk_djclass_chat.Resolver.{row_of}
use chzzk_djclass_chat.Store.{
  User, VarchiveLink, DjClass, Tables, active_link, list_dj_classes, delete_dj_classes,
  upsert_dj_class, upsert_varchive_link, deactivate_link, set_preferred_button, list_active_links,
}

-- varchive.User and varchive.DjClass.
pub record VaUser : Type 0 where
  pub user_no : ℤ
  pub nickname : Text

pub record VaClass : Type 0 where
  pub button : ℤ
  pub class : Text
  pub power_sum : Option ℤ
  pub max_power : Option ℤ
  pub power_conversion : Option ℤ

pub record VArchive : Type 0 where
  pub lookup_user : Text → Result VaUser
  pub all_dj_classes : Text → List VaClass

pub record SyncResult : Type 0 where
  pub done : Bool
  pub stale : Bool
  pub highest : Option Row

unfoldable pub to_dj_class : ℕ → VaClass → DjClass
to_dj_class i c = record {
  user_id = i;
  button = c.button;
  dj_class = c.class;
  dj_power_sum = c.power_sum;
  max_dj_power = c.max_power;
  dj_power_conversion = c.power_conversion;
}

unfoldable pub va_row : VaClass → Row
va_row c = record { button = c.button; class = c.class; conversion = c.power_conversion }

-- The statements by user id.
unfoldable pub clear_classes : ℕ → M (Unit {0})
clear_classes i = exec (λ t. some (record t { classes = delete_dj_classes i t.classes }))

unfoldable pub drop_link : ℕ → M (Unit {0})
drop_link i = exec (λ t. some (record t { links = deactivate_link i t.links }))

-- The loop of upserts.
unfoldable pub upsert_all : ℕ → List VaClass → M (Unit {0})
unfolding to_dj_class
upsert_all i [] = pure tt
upsert_all i (c ∷ cs) = exec (upsert_dj_class (to_dj_class i c)) >>= λ _. upsert_all i cs

-- The transaction of `syncUser`.
unfoldable pub replace_classes : ℕ → List VaClass → Bool → M (Unit {0})
unfolding clear_classes upsert_all
replace_classes i classes ctx = do clear_classes i; upsert_all i classes

unfoldable pub is_empty : List DjClass → Bool
is_empty [] = true
is_empty (c ∷ cs) = false

-- `syncUser` once the classes are fetched.
unfoldable pub sync_classes : User → List VaClass → M SyncResult
unfolding is_empty replace_classes va_row
sync_classes u [] = do
  had ← query (λ t. list_dj_classes u.id t.classes)
  pure (record { done = false; stale = not (is_empty had); highest = none })
sync_classes u (c ∷ cs) = do
  write_tx false (replace_classes u.id (c ∷ cs))
  invalidate_user u.chzzk_id
  pure (record {
    done = true;
    stale = false;
    highest = some (row_of (Djclass.resolve (map va_row (c ∷ cs)) none auto));
  })

-- The transaction of `Unlink`.
unfoldable pub unlink_rows : ℕ → Bool → M (Unit {0})
unfolding drop_link clear_classes
unlink_rows i ctx = do drop_link i; clear_classes i; exec (set_preferred_button i none)

unfoldable pub unlink_found : User → Option VarchiveLink → M (Unit {0})
unfolding unlink_rows
unlink_found u none = pure tt
unlink_found u (some l) = do write_tx false (unlink_rows u.id); invalidate_user u.chzzk_id; pure tt

unfoldable pub unlink : User → M (Unit {0})
unfolding unlink_found
unlink u = do l ← query (λ t. active_link u.id t.links); unlink_found u l

-- The digits of `strconv.ParseInt(raw, 10, 64)`, read into `n`.
unfoldable pub parse_digits : ℕ → Text → Option ℕ
parse_digits n [] = some n
parse_digits n (c ∷ s) =
    if leb b'0' c && leb c b'9' then parse_digits (n * 10 + (c - b'0')) s else none

abbrev int64_bound : ℕ
int64_bound = 9223372036854775808

unfoldable pub int_of : Bool → Option ℕ → Option ℤ
int_of negative none = none
int_of false (some n) = if ltb n int64_bound then some (pos n) else none
int_of true (some n) =
    if n == 0 then some (pos 0) else if leb n int64_bound then some (negsuc (n - 1)) else none

unfoldable pub parse_unsigned : Text → Option ℕ
unfolding parse_digits
parse_unsigned [] = none
parse_unsigned (c ∷ s) = parse_digits 0 (c ∷ s)

unfoldable pub parse_int : Text → Option ℤ
unfolding int_of parse_unsigned
parse_int [] = none
parse_int (c ∷ s) =
    if c == b'-'
    then int_of true (parse_unsigned s)
    else if c == b'+'
    then int_of false (parse_unsigned s)
    else int_of false (parse_unsigned (c ∷ s))

-- The last transaction of `SetPreferredButton`.
unfoldable pub store_preferred : User → Option ℤ → M (Unit {0})
store_preferred u pref = do
  write_tx false (λ ctx. exec (set_preferred_button u.id pref))
  invalidate_user u.chzzk_id
  pure tt

unfoldable pub has_class : ℤ → List DjClass → Bool
has_class b = any_of (λ (c : DjClass). int_eq c.button b)

unfoldable pub prefer_checked : User → ℤ → List DjClass → M (Unit {0})
unfolding has_class store_preferred
prefer_checked u b rows =
    if has_class b rows then store_preferred u (some b) else fail invalid_button

unfoldable pub prefer_parsed : User → Option ℤ → M (Unit {0})
unfolding prefer_checked
prefer_parsed u none = fail invalid_button
prefer_parsed u (some b) = do
  rows ← query (λ t. list_dj_classes u.id t.classes)
  prefer_checked u b rows

unfoldable pub set_preferred : User → Text → M (Unit {0})
unfolding prefer_parsed store_preferred parse_int
set_preferred u raw =
    if text_eq raw [] || text_eq raw (text "auto")
    then store_preferred u none
    else prefer_parsed u (parse_int raw)

module _ (va : VArchive) where
  unfoldable pub sync_user : User → Text → M SyncResult
  unfolding sync_classes
  sync_user u nickname = sync_classes u (va.all_dj_classes nickname)

  unfoldable pub connect_verified : User → Result VaUser → M SyncResult
  unfolding sync_user
  connect_verified u (err x) = fail x
  connect_verified u (ok v) = do
    write_tx false (λ ctx. exec (upsert_varchive_link u.id v.nickname (some v.user_no)))
    invalidate_user u.chzzk_id
    sync_user u v.nickname

  unfoldable pub connect : User → Text → M SyncResult
  unfolding connect_verified
  connect u token = connect_verified u (va.lookup_user token)

  unfoldable pub sync_linked : User → Option VarchiveLink → M SyncResult
  unfolding sync_user
  sync_linked u none = fail not_linked
  sync_linked u (some l) = sync_user u l.varchive_nickname

  unfoldable pub sync : User → M SyncResult
  unfolding sync_linked
  sync u = do l ← query (λ t. active_link u.id t.links); sync_linked u l
