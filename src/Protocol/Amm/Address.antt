-- ===== src/Protocol/Amm/Address.antt =====
-- The addresses of pools and their inverse (protocol/amm.ts). `none` is a refusal or null.
use kray_node.Base.{
  ℕ, ◌≡◌, refl, sym, ap, ◌∙◌, Bool, true, false, not, ◌&&◌, Option, none, some, List, [], ◌∷◌, ◌++◌,
  ◌==◌, if◌then◌else◌, All, arith, append_assoc,
}
use std.Path.{ap₂}
use kray_node.Base.Text.{Text, js, is_blank}
use kray_node.Base.Decimal.{is_digit, decimal, decimal_digits, is_blank-decimal}
use kray_node.Protocol.Runestone.Artifact.{RuneId}
use kray_node.Protocol.Amm.Book.{RrPair, rr_pair_key, rr_pair_key_sound}
use kray_node.Economics.RuneKey.{
  rune_key, canonical_rune_key, canonical_rune_key-rune_key, canonical_rune_key_sound,
}

-- `replace(/:/g, '_')`
abbrev pub dashed : Text → Text
dashed [] = []
dashed (c ∷ t) = (if c == b':' then b'_' else c) ∷ dashed t

abbrev pub pot_prefix : Text
pot_prefix = js "KRAY_AMM_"

abbrev pub map_some : (Text → Text) → Option Text → Option Text
map_some f none = none
map_some f (some x) = some (f x)

unfoldable pub amm_pool_address : Text → Option Text
amm_pool_address rune_id = map_some (λ c. pot_prefix ++ dashed c) (canonical_rune_key rune_id)

-- `s.slice(prefix.length)`, where `s` starts with the prefix.
unfoldable pub after_prefix : Text → Text → Option Text
after_prefix [] t = some t
after_prefix (p ∷ ps) [] = none
after_prefix (p ∷ ps) (c ∷ t) = if p == c then after_prefix ps t else none

unfoldable pub is_amm_pot_address : Text → Bool
is_amm_pot_address t = elim (after_prefix pot_prefix t) [ none ↦ false | some rest ↦ true ]

abbrev pub onto_first : ℕ → List Text → List Text
onto_first c [] = (c ∷ []) ∷ []
onto_first c (p ∷ parts) = (c ∷ p) ∷ parts

-- `split('_')`
unfoldable pub split_bar : Text → List Text
split_bar [] = [] ∷ []
split_bar (c ∷ t) = let rest = split_bar t in if c == b'_' then [] ∷ rest else onto_first c rest

abbrev pub digits_only : Text → Bool
digits_only [] = true
digits_only (c ∷ t) = is_digit c && digits_only t

-- `/^\d+$/`
unfoldable pub is_digits : Text → Bool
is_digits t = not (is_blank t) && digits_only t

pub data AmmPotRef : Type 0 where
  kray_pot : Text → AmmPotRef
  rr_pot : Text → Text → AmmPotRef

abbrev pub rr_prefix : Text
rr_prefix = pot_prefix ++ js "RR_"

abbrev pub rr_of : Option RrPair → Option Text
rr_of none = none
rr_of (some p) = some (rr_prefix ++ (dashed p.a ++ (b'_' ∷ dashed p.b)))

-- `KRAY_AMM_RR_` with both runes of the pair
unfoldable pub amm_rr_pool_address : Text → Text → Option Text
amm_rr_pool_address rune_a rune_b = rr_of (rr_pair_key rune_a rune_b)

abbrev pub kray_ref : Option Text → Option AmmPotRef
kray_ref none = none
kray_ref (some c) = some (kray_pot c)

abbrev pub rr_ref : Option RrPair → Option AmmPotRef
rr_ref none = none
rr_ref (some p) = some (rr_pot p.a p.b)

unfoldable pub kray_of_parts : List Text → Option AmmPotRef
kray_of_parts (p ∷ q ∷ []) =
    if is_digits p && is_digits q then kray_ref (canonical_rune_key (p ++ (b':' ∷ q))) else none
kray_of_parts _ = none

unfoldable pub rr_of_parts : List Text → Option AmmPotRef
rr_of_parts (p ∷ q ∷ r ∷ s ∷ []) =
    if (is_digits p && is_digits q) && (is_digits r && is_digits s)
    then rr_ref (rr_pair_key (p ++ (b':' ∷ q)) (r ++ (b':' ∷ s)))
    else none
rr_of_parts _ = none

abbrev pub kray_of : Option Text → Option AmmPotRef
kray_of none = none
kray_of (some rest) = kray_of_parts (split_bar rest)

abbrev pub pot_of : Option Text → Text → Option AmmPotRef
pot_of (some rest) t = rr_of_parts (split_bar rest)
pot_of none t = kray_of (after_prefix pot_prefix t)

unfoldable pub parse_amm_pot_address : Text → Option AmmPotRef
parse_amm_pot_address t = pot_of (after_prefix rr_prefix t) t

abbrev Digits : Text → Type 0
Digits t = All (λ c. is_digit c ≡ true) t

after_prefix-append : (p t : Text) → after_prefix p (p ++ t) ≡ some t
unfolding after_prefix
after_prefix-append [] t = refl
after_prefix-append (c ∷ p) t = ground (arith, after_prefix-append p t)

after_prefix-Digits :
    (d t : Text) → Digits d → is_blank d ≡ false → after_prefix (js "RR_") (d ++ t) ≡ none
unfolding after_prefix
after_prefix-Digits [] t h n = ground (arith, n)
after_prefix-Digits (c ∷ d) t (p, h) n = ground (arith, p)

split_bar-Digits : (d : Text) → Digits d → split_bar d ≡ d ∷ []
unfolding split_bar
split_bar-Digits [] h = refl
split_bar-Digits (c ∷ d) (p, h) = ground (arith, p, split_bar-Digits d h)

split_bar-append : (d t : Text) → Digits d → split_bar (d ++ (b'_' ∷ t)) ≡ d ∷ split_bar t
unfolding split_bar
split_bar-append [] t h = refl
split_bar-append (c ∷ d) t (p, h) = ground (arith, p, split_bar-append d t h)

dashed-Digits : (d : Text) → Digits d → dashed d ≡ d
dashed-Digits [] h = refl
dashed-Digits (c ∷ d) (p, h) = ground (arith, p, dashed-Digits d h)

dashed-append : (d t : Text) → Digits d → dashed (d ++ (b':' ∷ t)) ≡ d ++ (b'_' ∷ dashed t)
dashed-append [] t h = refl
dashed-append (c ∷ d) t (p, h) = ground (arith, p, dashed-append d t h)

dashed-rune_key : (id : RuneId) → dashed (rune_key id) ≡ decimal id.block ++ (b'_' ∷ decimal id.tx)
unfolding rune_key
dashed-rune_key id = rw (
  dashed-append (decimal id.block) (decimal id.tx) (decimal_digits id.block),
  dashed-Digits (decimal id.tx) (decimal_digits id.tx),
)

digits_only-decimal : (d : Text) → Digits d → digits_only d ≡ true
digits_only-decimal [] h = refl
digits_only-decimal (c ∷ d) (p, h) = ground (arith, p, digits_only-decimal d h)

is_digits-decimal : (n : ℕ) → is_digits (decimal n) ≡ true
unfolding is_digits
is_digits-decimal n =
    ground (arith, is_blank-decimal n, digits_only-decimal (decimal n) (decimal_digits n))

rr_prefix-decimal :
    (n : ℕ) → (t : Text) → after_prefix rr_prefix (pot_prefix ++ (decimal n ++ t)) ≡ none
unfolding after_prefix
rr_prefix-decimal n t = after_prefix-Digits (decimal n) t (decimal_digits n) (is_blank-decimal n)

split_bar-pair :
    (n m : ℕ) → split_bar (decimal n ++ (b'_' ∷ decimal m)) ≡ decimal n ∷ decimal m ∷ []
split_bar-pair n m = rw (
  split_bar-append (decimal n) (decimal m) (decimal_digits n),
  split_bar-Digits (decimal m) (decimal_digits m),
)

kray_of_parts-decimal :
    (id : RuneId)
    → kray_of_parts (decimal id.block ∷ decimal id.tx ∷ []) ≡ some (kray_pot (rune_key id))
unfolding kray_of_parts rune_key
kray_of_parts-decimal id =
    rw (is_digits-decimal id.block, is_digits-decimal id.tx, canonical_rune_key-rune_key id)

rr_of_parts-decimal :
    (i j : RuneId)
    → (p : RrPair) → rr_pair_key (rune_key i) (rune_key j) ≡ some p
    → rr_of_parts (decimal i.block ∷ decimal i.tx ∷ decimal j.block ∷ decimal j.tx ∷ [])
      ≡ some (rr_pot p.a p.b)
unfolding rr_of_parts rune_key
rr_of_parts-decimal i j p h = rw (
  is_digits-decimal i.block,
  is_digits-decimal i.tx,
  is_digits-decimal j.block,
  is_digits-decimal j.tx,
  h,
)

parse-rune_key :
    (id : RuneId)
    → parse_amm_pot_address (pot_prefix ++ dashed (rune_key id)) ≡ some (kray_pot (rune_key id))
unfolding parse_amm_pot_address
parse-rune_key id =
    ap (λ t. pot_of (after_prefix rr_prefix (pot_prefix ++ t)) (pot_prefix ++ t))
      (dashed-rune_key id)
    ∙ (ap (λ o. pot_of o (pot_prefix ++ bars)) (rr_prefix-decimal id.block (b'_' ∷ decimal id.tx))
        ∙ (ap kray_of (after_prefix-append pot_prefix bars)
            ∙ (ap kray_of_parts (split_bar-pair id.block id.tx) ∙ kray_of_parts-decimal id)))
  where
    bars : Text
    bars = decimal id.block ++ (b'_' ∷ decimal id.tx)

abbrev or_blank : Option Text → Text
or_blank none = []
or_blank (some t) = t

address_cases :
    (o : Option Text)
    → (addr c : Text) → o ≡ some c
    → map_some (λ k. pot_prefix ++ dashed k) o ≡ some addr
    → addr ≡ pot_prefix ++ dashed c
address_cases o addr c e h =
    let named : some addr ≡ some (pot_prefix ++ dashed c) =
      sym h ∙ ap (map_some (λ k. pot_prefix ++ dashed k)) e in
    ap or_blank named

-- The address of the pool of a rune reads back as the pool of the rune's canonical spelling.
pub parse_amm_pot_address-amm_pool_address :
    (rune_id addr c : Text)
    → canonical_rune_key rune_id ≡ some c
    → amm_pool_address rune_id ≡ some addr
    → parse_amm_pot_address addr ≡ some (kray_pot c)
unfolding amm_pool_address
parse_amm_pot_address-amm_pool_address rune_id addr c e h =
    let (id, same) = canonical_rune_key_sound rune_id c e in
    ap parse_amm_pot_address (address_cases (canonical_rune_key rune_id) addr c e h)
    ∙ (ap (λ k. parse_amm_pot_address (pot_prefix ++ dashed k)) same
        ∙ (parse-rune_key id ∙ ap (λ k. some (kray_pot k)) (sym same)))

split_bar-pairs :
    (i j : RuneId)
    → split_bar (
        (decimal i.block ++ (b'_' ∷ decimal i.tx))
        ++ (b'_' ∷ (decimal j.block ++ (b'_' ∷ decimal j.tx))))
      ≡ decimal i.block ∷ decimal i.tx ∷ decimal j.block ∷ decimal j.tx ∷ []
split_bar-pairs i j =
    ap split_bar (append_assoc (decimal i.block) (b'_' ∷ decimal i.tx) (b'_' ∷ second))
    ∙ (split_bar-append (decimal i.block) (decimal i.tx ++ (b'_' ∷ second)) (decimal_digits i.block)
        ∙ ap (λ r. decimal i.block ∷ r)
            (split_bar-append (decimal i.tx) second (decimal_digits i.tx)
              ∙ ap (λ r. decimal i.tx ∷ r) (split_bar-pair j.block j.tx)))
  where
    second : Text
    second = decimal j.block ++ (b'_' ∷ decimal j.tx)

abbrev rr_address : Text → Text → Text
rr_address x y = dashed x ++ (b'_' ∷ dashed y)

rr_of_address :
    (i j : RuneId)
    → (p : RrPair) → rr_pair_key (rune_key i) (rune_key j) ≡ some p
    → rr_of_parts (split_bar (rr_address (rune_key i) (rune_key j))) ≡ some (rr_pot p.a p.b)
rr_of_address i j p h =
    ap₂ (λ d e. rr_of_parts (split_bar (d ++ (b'_' ∷ e)))) (dashed-rune_key i) (dashed-rune_key j)
    ∙ (ap rr_of_parts (split_bar-pairs i j) ∙ rr_of_parts-decimal i j p h)

-- The address of a pair's pool reads back as the pool of that pair.
pub parse_amm_pot_address-amm_rr_pool_address :
    (rune_a rune_b addr : Text)
    → (p : RrPair) → rr_pair_key rune_a rune_b ≡ some p
    → amm_rr_pool_address rune_a rune_b ≡ some addr
    → parse_amm_pot_address addr ≡ some (rr_pot p.a p.b)
unfolding parse_amm_pot_address amm_rr_pool_address
parse_amm_pot_address-amm_rr_pool_address rune_a rune_b addr p e h =
    let (i, (j, (u, (v, again)))) = rr_pair_key_sound rune_a rune_b p e in
    let named : some addr ≡ some (rr_prefix ++ rr_address p.a p.b) = sym h ∙ ap rr_of e in
    let spelled : rr_address p.a p.b ≡ rr_address (rune_key i) (rune_key j) = ap₂ rr_address u v in
    ap parse_amm_pot_address (ap or_blank named)
    ∙ (ap (λ o. pot_of o (rr_prefix ++ rr_address p.a p.b))
          (after_prefix-append rr_prefix (rr_address p.a p.b))
        ∙ (ap (λ t. rr_of_parts (split_bar t)) spelled ∙ rr_of_address i j p again))
