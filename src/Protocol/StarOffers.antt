-- ===== src/Protocol/StarOffers.antt =====
-- Escrowed bids, `class StarOffers` (protocol/star-offers.ts). A star is a natural number, a price too. The
-- commitment text is not modelled.
use kray_node.Base.{
  ℕ, ◌≡◌, Bool, true, false, Option, none, some, List, [], ◌∷◌, ◌++◌, filter, ltb, ◌==◌,
  if◌then◌else◌,
}
use kray_node.Base.Text.{Text, text_eq, text_lt}
use kray_node.Base.Decimal.{decimal, decimal_value}
use kray_node.Base.Map.{text_key, Map, get, set, delete, sum_values}
use kray_node.Base.Sort.{sort}
pub mod Locked
mod Tests

pub record StarOffer : Type 0 where
  pub star : Text
  pub bidder : Text
  pub price : ℕ

abbrev pub Offers : Type 0
Offers = Map Text StarOffer

-- `${star}|${bidder}`
unfoldable pub key_of : ℕ → Text → Text
key_of star bidder = decimal star ++ (b'|' ∷ bidder)

unfoldable pub get_offer : ℕ → Text → Offers → Option StarOffer
get_offer star bidder b = get (key_of star bidder) b

unfoldable pub put_offer : ℕ → Text → ℕ → Offers → Offers
put_offer star bidder price b =
    set (key_of star bidder) (record { star = decimal star; bidder = bidder; price = price }) b

unfoldable pub remove_offer : ℕ → Text → Offers → Offers
remove_offer star bidder b = delete (key_of star bidder) b

unfoldable pub locked_total : Offers → ℕ
locked_total b = sum_values (λ o. o.price) b

abbrev pub values : Offers → List StarOffer
values [] = []
values ((k, o) ∷ b) = o ∷ values b

-- The higher price first, then the smaller bidder.
abbrev pub dearer : StarOffer → StarOffer → Bool
dearer a b =
    if ltb b.price a.price
    then true
    else (if ltb a.price b.price then false else text_lt a.bidder b.bidder)

unfoldable pub on_star : ℕ → Offers → List StarOffer
on_star star b = sort dearer (filter (λ o. text_eq o.star (decimal star)) (values b))

abbrev pub older : StarOffer → StarOffer → Bool
older a b =
    let m = decimal_value a.star in
    let n = decimal_value b.star in
    if ltb m n then true else (if ltb n m then false else text_lt a.bidder b.bidder)

unfoldable pub all_offers : Offers → List StarOffer
all_offers b = sort older (values b)
