-- ===== src/Economics/Raffle.antt =====
-- The raffle of a donation's surplus (economics/raffle.ts). The hash is a parameter.
use kray_node.Base.{
  ℕ, zero, suc, ◌+◌, ◌-◌, ◌*◌, ◌%◌, Bool, true, false, not, ◌&&◌, ◌||◌, Option, none, some, List,
  [], ◌∷◌, ◌++◌, map, filter, sum_by, length, ltb, leb, ◌==◌, if◌then◌else◌,
}
use kray_node.Base.Text.{Text, js, text_lt}
use kray_node.Base.Sort.{sort}
pub mod Fair
mod Tests

pub record RaffleEntry : Type 0 where
  pub address : Text
  pub work : ℕ

-- `toLowerCase` on hex letters
abbrev pub lower : ℕ → ℕ
lower c = if leb b'A' c && leb c b'F' then c + 32 else c

abbrev pub is_hex : ℕ → Bool
is_hex c = (leb b'0' c && leb c b'9') || (leb b'a' (lower c) && leb (lower c) b'f')

abbrev pub every_hex : Text → Bool
every_hex [] = true
every_hex (c ∷ t) = is_hex c && every_hex t

-- `/^[0-9a-f]{64}$/i`
unfoldable pub is_beacon : Text → Bool
is_beacon t = length t == 64 && every_hex t

abbrev pub hex_digit : ℕ → ℕ
hex_digit c = if leb c b'9' then c - b'0' else lower c - b'a' + 10

abbrev pub hex_onto : ℕ → Text → ℕ
hex_onto acc [] = acc
hex_onto acc (c ∷ t) = hex_onto (acc * 16 + hex_digit c) t

-- `BigInt('0x' + h)`
unfoldable pub hex_value : Text → ℕ
hex_value t = hex_onto 0 t

abbrev pub by_address : RaffleEntry → RaffleEntry → Bool
by_address a b = text_lt a.address b.address

abbrev pub has_work : RaffleEntry → Bool
has_work e = ltb 0 e.work

unfoldable pub total_work : List RaffleEntry → ℕ
total_work entries = sum_by (λ e. e.work) (filter has_work entries)

-- The first entry at which the sum passes the draw; the last one if there is none.
unfoldable pub winner_from : ℕ → ℕ → Text → List RaffleEntry → Text
winner_from acc drawn last [] = last
winner_from acc drawn last (e ∷ entries) =
    let rest = winner_from (acc + e.work) drawn e.address entries in
    if ltb drawn (acc + e.work) then e.address else rest

unfoldable pub winner_at : ℕ → List RaffleEntry → Text
winner_at drawn entries = winner_from 0 drawn [] (sort by_address (filter has_work entries))

module _ (hash_of : Text → Text) where
  -- `none` is the exception on what is no block hash.
  unfoldable pub raffle_draw : Text → ℕ → Option ℕ
  raffle_draw beacon total =
      if not (is_beacon beacon)
      then none
      else (if total == 0
          then none
          else some (hex_value (hash_of (js "kray.raffle.v1|" ++ map lower beacon)) % total))

  -- `some none` is the answer that nobody wins.
  unfoldable pub raffle_winner : Text → List RaffleEntry → Option (Option Text)
  raffle_winner beacon entries =
      if total_work entries == 0
      then some none
      else elim (raffle_draw beacon (total_work entries)) [
        | none ↦ none
        | some drawn ↦ some (some (winner_at drawn entries))
      ]
