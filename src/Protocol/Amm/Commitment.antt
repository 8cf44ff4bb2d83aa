-- ===== src/Protocol/Amm/Commitment.antt =====
-- The text of the book of shares that is hashed (protocol/amm.ts, `AmmBook.commitment`).
use kray_node.Base.{
  ℕ, ◌≡◌, refl, true, ◌&&◌, Option, none, some, List, [], ◌∷◌, ◌++◌, map, length, All, arith,
}
use kray_node.Base.Text.{Text, js}
use kray_node.Base.Decimal.{decimal}
use kray_node.Economics.RuneKey.{canonical_rune_key}
use kray_node.Protocol.Amm.Book.{RrPair, bar, AmmBook, supply_at, holders_at}
use kray_node.Protocol.Amm.Views.{holders, rune_ids, rr_pairs, is_nil, empty}

-- `join(sep)`
abbrev pub joined : Text → List Text → Text
joined sep [] = []
joined sep (x ∷ []) = x
joined sep (x ∷ y ∷ xs) = x ++ (sep ++ joined sep (y ∷ xs))

abbrev pub holder_text : Text × ℕ → Text
holder_text h = h.0 ++ (b'=' ∷ decimal h.1)

unfoldable pub pool_line : Text → ℕ → List (Text × ℕ) → Text
pool_line key supply hs =
    key ++ (bar ∷ (decimal supply ++ (bar ∷ joined (b',' ∷ []) (map holder_text hs))))

abbrev pub with_line : Text → ℕ → Option (List (Text × ℕ)) → Option (List Text) → Option (List Text)
with_line id supply (some hs) (some rest) = some (pool_line id supply hs ∷ rest)
with_line id supply _ _ = none

-- A line for each rune of the list; `none` is a `throw` of `holders`.
unfoldable pub rune_lines : List Text → AmmBook → Option (List Text)
rune_lines [] b = some []
rune_lines (id ∷ ids) b = with_line id (supply_at id b) (holders id b) (rune_lines ids b)

unfoldable pub rr_line : AmmBook → RrPair → Text
rr_line b p = js "RR|" ++ pool_line p.key (supply_at p.key b) (holders_at p.key b)

abbrev pub text_of_lines : Option (List Text) → List Text → Option Text
text_of_lines none pairs = none
text_of_lines (some lines) pairs = some (joined (b'\n' ∷ []) (lines ++ pairs))

unfoldable pub commitment : AmmBook → Option Text
commitment b = text_of_lines (rune_lines (rune_ids b) b) (map (rr_line b) (rr_pairs b))

-- Runes in their canonical spelling have their lines, one for each: nothing throws.
pub rune_lines_total :
    (ids : List Text) (b : AmmBook)
    → All (λ k. canonical_rune_key k ≡ some k) ids
    → (lines : List Text) × ((rune_lines ids b ≡ some lines) × (length lines ≡ length ids))
unfolding rune_lines holders
rune_lines_total [] b h = ([], (refl, refl))
rune_lines_total (id ∷ ids) b (k, h) =
    let (lines, (e, n)) = rune_lines_total ids b h in
    (pool_line id (supply_at id b) (holders_at id b) ∷ lines, (rw (k, e) refl, ground (arith, n)))

commitment_cases :
    (rs : List Text) (ps : List RrPair) (b : AmmBook)
    → (is_nil rs && is_nil ps) ≡ true
    → text_of_lines (rune_lines rs b) (map (rr_line b) ps) ≡ some []
unfolding rune_lines
commitment_cases [] [] b h = refl
commitment_cases [] (p ∷ ps) b h = ground arith
commitment_cases (r ∷ rs) ps b h = ground arith

-- A book that is empty commits to the empty text.
pub commitment-empty : (b : AmmBook) → empty b ≡ true → commitment b ≡ some []
unfolding commitment empty
commitment-empty b h = commitment_cases (rune_ids b) (rr_pairs b) b h
