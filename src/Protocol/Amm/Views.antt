-- ===== src/Protocol/Amm/Views.antt =====
-- What can be read of the book of shares (protocol/amm.ts, class AmmBook). `none` is a `throw`.
use kray_node.Base.{
  ℕ, ◌≡◌, refl, ap, ◌∙◌, Bool, true, false, not, ◌&&◌, Option, none, some, List, [], ◌∷◌, ◌++◌, map,
  filter, ltb, ◌==◌, ◌||◌, if◌then◌else◌, All, arith,
}
use std.Path.{ap₂}
use kray_node.Base.Text.{Text, text_lt}
use kray_node.Base.Map.{Map}
use kray_node.Base.Sort.{sort}
use kray_node.Base.Decimal.{is_digit, decimal, decimal_digits}
use kray_node.Base.Result.{or_raise, modify, gets, ◌>>=◌, ◌>>◌}
use kray_node.Protocol.Runestone.Artifact.{RuneId}
use kray_node.Economics.RuneKey.{rune_key, canonical_rune_key}
use kray_node.Protocol.Amm.Quote.{bad_rune_id, same_rune}
use kray_node.Protocol.Amm.Book.{
  RrPair, rr_pair_key, rr_pair_key_sound, rr_pair_key_named, bar, AmmBook, Method, supply_at, lp_at,
  bag_at, holders_at,
}

-- `key.includes('|')`
unfoldable pub is_rr_pair_key : Text → Bool
is_rr_pair_key [] = false
is_rr_pair_key (c ∷ t) = c == bar || is_rr_pair_key t

abbrev pub read_at : {A : Type 0} → Option Text → (Text → A) → Option A
read_at none f = none
read_at (some k) f = some (f k)

abbrev pub read_rr : {A : Type 0} → Option RrPair → (Text → A) → Option A
read_rr none f = none
read_rr (some p) f = some (f p.key)

unfoldable pub supply_of : Text → AmmBook → Option ℕ
supply_of rune_id b = read_at (canonical_rune_key rune_id) (λ k. supply_at k b)

unfoldable pub exists : Text → AmmBook → Option Bool
exists rune_id b = read_at (canonical_rune_key rune_id) (λ k. ltb 0 (supply_at k b))

-- The read makes an empty map of holders where there is none.
unfoldable pub lp_of : Text → Text → Method ℕ
lp_of rune_id addr = do
  k ← or_raise (canonical_rune_key rune_id) bad_rune_id
  modify (bag_at k)
  gets (lp_at k addr)

unfoldable pub supply_of_rr : Text → Text → AmmBook → Option ℕ
supply_of_rr x y b = read_rr (rr_pair_key x y) (λ k. supply_at k b)

unfoldable pub exists_rr : Text → Text → AmmBook → Option Bool
exists_rr x y b = read_rr (rr_pair_key x y) (λ k. ltb 0 (supply_at k b))

unfoldable pub lp_of_rr : Text → Text → Text → Method ℕ
lp_of_rr x y addr = do
  p ← or_raise (rr_pair_key x y) same_rune
  modify (bag_at p.key)
  gets (lp_at p.key addr)

unfoldable pub holders : Text → AmmBook → Option (List (Text × ℕ))
holders rune_id b = read_at (canonical_rune_key rune_id) (λ k. holders_at k b)

unfoldable pub holders_rr : Text → Text → AmmBook → Option (List (Text × ℕ))
holders_rr x y b = read_rr (rr_pair_key x y) (λ k. holders_at k b)

abbrev pub before_bar : Text → Text
before_bar [] = []
before_bar (c ∷ t) = if c == bar then [] else c ∷ before_bar t

abbrev pub after_bar : Text → Text
after_bar [] = []
after_bar (c ∷ t) = if c == bar then t else after_bar t

-- `key.split('|')`, of which the first two parts are taken, on a key with a bar
unfoldable pub pair_of_key : Text → RrPair
pair_of_key key = record { key = key; a = before_bar key; b = before_bar (after_bar key) }

abbrev pub supply_keys : Map Text ℕ → List Text
supply_keys [] = []
supply_keys ((k, n) ∷ m) = k ∷ supply_keys m

unfoldable pub rune_ids : AmmBook → List Text
rune_ids b =
    sort text_lt
      (filter (λ k. not (is_rr_pair_key k) && ltb 0 (supply_at k b)) (supply_keys b.supply))

unfoldable pub rr_pairs : AmmBook → List RrPair
rr_pairs b =
    map pair_of_key (
      sort text_lt (filter (λ k. is_rr_pair_key k && ltb 0 (supply_at k b)) (supply_keys b.supply)))

abbrev pub is_nil : {A : Type 0} → List A → Bool
is_nil [] = true
is_nil (_ ∷ _) = false

unfoldable pub empty : AmmBook → Bool
empty b = is_nil (rune_ids b) && is_nil (rr_pairs b)

is_rr_pair_key-append :
    (t u : Text) → is_rr_pair_key (t ++ u) ≡ (is_rr_pair_key t || is_rr_pair_key u)
unfolding is_rr_pair_key
is_rr_pair_key-append [] u = refl
is_rr_pair_key-append (c ∷ t) u = ground (arith, is_rr_pair_key-append t u)

digits-no_bar : (d : Text) → All (λ c. is_digit c ≡ true) d → is_rr_pair_key d ≡ false
unfolding is_rr_pair_key
digits-no_bar [] h = refl
digits-no_bar (c ∷ d) (p, h) = ground (arith, p, digits-no_bar d h)

-- The key of a rune has no bar: no rune shares its pool with a pair.
pub is_rr_pair_key-rune_key : (id : RuneId) → is_rr_pair_key (rune_key id) ≡ false
unfolding rune_key is_rr_pair_key
is_rr_pair_key-rune_key id = ground (
  arith,
  is_rr_pair_key-append (decimal id.block) (b':' ∷ decimal id.tx),
  digits-no_bar (decimal id.block) (decimal_digits id.block),
  digits-no_bar (decimal id.tx) (decimal_digits id.tx),
)

before_bar-append : (t u : Text) → is_rr_pair_key t ≡ false → before_bar (t ++ (bar ∷ u)) ≡ t
unfolding is_rr_pair_key
before_bar-append [] u h = refl
before_bar-append (c ∷ t) u h = ground (arith, h, before_bar-append t u)

after_bar-append : (t u : Text) → is_rr_pair_key t ≡ false → after_bar (t ++ (bar ∷ u)) ≡ u
unfolding is_rr_pair_key
after_bar-append [] u h = refl
after_bar-append (c ∷ t) u h = ground (arith, h, after_bar-append t u)

before_bar-whole : (t : Text) → is_rr_pair_key t ≡ false → before_bar t ≡ t
unfolding is_rr_pair_key
before_bar-whole [] h = refl
before_bar-whole (c ∷ t) h = ground (arith, h, before_bar-whole t)

has_bar : (t u : Text) → is_rr_pair_key (t ++ (bar ∷ u)) ≡ true
unfolding is_rr_pair_key
has_bar [] u = refl
has_bar (c ∷ t) u = ground (arith, has_bar t u)

no_bar : (t : Text) → (id : RuneId) → t ≡ rune_key id → is_rr_pair_key t ≡ false
no_bar t id e = ap is_rr_pair_key e ∙ is_rr_pair_key-rune_key id

rebuilt :
    (p : RrPair)
    → p.key ≡ p.a ++ (bar ∷ p.b)
    → is_rr_pair_key p.a ≡ false
    → is_rr_pair_key p.b ≡ false
    → pair_of_key p.key ≡ p
unfolding pair_of_key
rebuilt p e u v = ap₂ (λ x y. record { key = p.key; a = x; b = y }) first second
  where
    first : before_bar p.key ≡ p.a
    first = ap before_bar e ∙ before_bar-append p.a p.b u

    second : before_bar (after_bar p.key) ≡ p.b
    second =
        ap (λ k. before_bar (after_bar k)) e
        ∙ (ap before_bar (after_bar-append p.a p.b u) ∙ before_bar-whole p.b v)

-- The key of an accepted pair is listed as a pair's, never as a rune's, and splits into that pair.
pub pair_of_key-rr_pair_key :
    (x y : Text)
    → (p : RrPair) → rr_pair_key x y ≡ some p
    → (is_rr_pair_key p.key ≡ true) × (pair_of_key p.key ≡ p)
pair_of_key-rr_pair_key x y p h =
    let (i, (j, (u, (v, again)))) = rr_pair_key_sound x y p h in
    let named = rr_pair_key_named x y p h in
    (ap is_rr_pair_key named ∙ has_bar p.a p.b, rebuilt p named (no_bar p.a i u) (no_bar p.b j v))
