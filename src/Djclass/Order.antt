-- ===== src/Djclass/Order.antt =====
-- The comparison of sort keys by `Resolve` (internal/djclass/djclass.go): a strict weak order.
use chzzk_djclass_chat.Base.{◌≡◌, refl, Bool, true, false, arith}
use chzzk_djclass_chat.Base.Int.{ℤ, pos, negsuc}
use chzzk_djclass_chat.Djclass.{SortKey, greater_or, key_gt}

-- One place of the comparison, where `r`, `s` and `t` decide the ties.
beats_step :
    (a b c : ℤ) (r s t : Bool)
    → (r ≡ true → s ≡ false → t ≡ true)
    → greater_or a b r ≡ true
    → greater_or c b s ≡ false
    → greater_or a c t ≡ true
unfolding greater_or
beats_step (pos a) (pos b) (pos c) r s t h p q = ground arith
beats_step (pos a) (pos b) (negsuc c) r s t h p q = ground arith
beats_step (pos a) (negsuc b) (pos c) r s t h p q = ground arith
beats_step (pos a) (negsuc b) (negsuc c) r s t h p q = ground arith
beats_step (negsuc a) (pos b) (pos c) r s t h p q = ground arith
beats_step (negsuc a) (pos b) (negsuc c) r s t h p q = ground arith
beats_step (negsuc a) (negsuc b) (pos c) r s t h p q = ground arith
beats_step (negsuc a) (negsuc b) (negsuc c) r s t h p q = ground arith

-- What beats a key, beats every key that does not beat that one.
pub key_gt_of_not_gt :
    (j k l : SortKey) → key_gt j k ≡ true → key_gt l k ≡ false → key_gt j l ≡ true
unfolding key_gt
key_gt_of_not_gt j k l = beats_step j.rank_ord k.rank_ord l.rank_ord _ _ _ (
    beats_step j.level_ord k.level_ord l.level_ord _ _ _
      (beats_step j.button_pref k.button_pref l.button_pref false false false (λ p q. p)))

irrefl_step : (a : ℤ) (r : Bool) → r ≡ false → greater_or a a r ≡ false
unfolding greater_or
irrefl_step (pos a) r h = ground arith
irrefl_step (negsuc a) r h = ground arith

pub key_gt_irrefl : (k : SortKey) → key_gt k k ≡ false
unfolding key_gt
key_gt_irrefl k =
    irrefl_step k.rank_ord _ (irrefl_step k.level_ord _ (irrefl_step k.button_pref false refl))

asymm_step :
    (a b : ℤ) (r s : Bool)
    → (r ≡ true → s ≡ false)
    → greater_or a b r ≡ true
    → greater_or b a s ≡ false
unfolding greater_or
asymm_step (pos a) (pos b) r s h p = ground arith
asymm_step (pos a) (negsuc b) r s h p = ground arith
asymm_step (negsuc a) (pos b) r s h p = ground arith
asymm_step (negsuc a) (negsuc b) r s h p = ground arith

pub key_gt_asymm : (j k : SortKey) → key_gt j k ≡ true → key_gt k j ≡ false
unfolding key_gt
key_gt_asymm j k = asymm_step j.rank_ord k.rank_ord _ _ (
    asymm_step j.level_ord k.level_ord _ _
      (asymm_step j.button_pref k.button_pref false false (λ p. refl)))
