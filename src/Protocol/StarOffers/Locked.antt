-- ===== src/Protocol/StarOffers/Locked.antt =====
-- What bids lock (protocol/star-offers.ts).
use kray_node.Base.{
  ℕ, ◌+◌, ◌≡◌, refl, true, false, Option, none, some, [], ◌∷◌, sum_by, arith, Bool-cases, inl, inr,
}
use kray_node.Base.Text.{Text, text_eq, text_eq_sound, text_eq_complete}
use kray_node.Base.Decimal.{decimal, decimal_before-inj}
use kray_node.Base.Map.{
  text_key, Distinct, sum_values, get-set, get-delete_ne, get-delete_self, sum_values-set,
  sum_values-delete,
}
use kray_node.Base.Sort.{sum_by-sort}
use kray_node.Protocol.StarOffers.{
  StarOffer, Offers, key_of, get_offer, put_offer, remove_offer, locked_total, values, older,
  all_offers,
}

abbrev pub price_of : Option StarOffer → ℕ
price_of none = 0
price_of (some o) = o.price

abbrev pub IsOtherBid : ℕ → Text → ℕ → Text → Type 0
IsOtherBid i a j c = ¬ ((i ≡ j) × (a ≡ c))

other_key : (i j : ℕ) (a c : Text) → IsOtherBid i a j c → text_eq (key_of i a) (key_of j c) ≡ false
unfolding key_of
other_key i j a c o = elim (Bool-cases (text_eq (key_of i a) (key_of j c))) [
  | inl e ↦
      absurd (o (decimal_before-inj i j b'|' a c refl (text_eq_sound (key_of i a) (key_of j c) e)))
  | inr e ↦ e
]

sum_values_all :
    (b : Offers) → sum_by (λ (o : StarOffer). o.price) (values b) ≡ sum_values (λ o. o.price) b
unfolding sum_values
sum_values_all [] = refl
sum_values_all ((k, o) ∷ b) = omega (arith, sum_values_all b)

-- What is locked is the prices of the bids that are listed.
pub locked_total-all_offers :
    (b : Offers) → locked_total b ≡ sum_by (λ (o : StarOffer). o.price) (all_offers b)
unfolding locked_total all_offers
locked_total-all_offers b =
    omega (arith, sum_values_all b, sum_by-sort older (λ (o : StarOffer). o.price) (values b))

-- In a book with one entry for each key: a bid is read back, and replaces what the same bidder had locked
-- on that star; a bid that is removed is gone, and its price is no longer locked; and neither touches the
-- bid of another bidder or on another star.
pub put_remove_locked :
    (i j : ℕ) (a c : Text) (price : ℕ) (b : Offers)
    → Distinct b
    → IsOtherBid i a j c
    → (get_offer i a (put_offer i a price b)
        ≡ some (record { star = decimal i; bidder = a; price = price }))
      × (locked_total (put_offer i a price b) + price_of (get_offer i a b) ≡ locked_total b + price)
      × (get_offer j c (put_offer i a price b) ≡ get_offer j c b)
      × (get_offer i a (remove_offer i a b) ≡ none)
      × (locked_total (remove_offer i a b) + price_of (get_offer i a b) ≡ locked_total b)
      × (get_offer j c (remove_offer i a b) ≡ get_offer j c b)
unfolding get_offer put_offer remove_offer locked_total
put_remove_locked i j a c price b d o =
    let key = key_of i a in
    let key' = key_of j c in
    let new : StarOffer = record { star = decimal i; bidder = a; price = price } in
    let self : text_eq key key ≡ true = text_eq_complete key key refl in
    let other = other_key i j a c o in
    (
      ground (arith, self, get-set key key new b),
      ground (arith, sum_values-set (λ (x : StarOffer). x.price) key new b),
      ground (arith, other, get-set key' key new b),
      get-delete_self key b d,
      ground (arith, sum_values-delete (λ (x : StarOffer). x.price) key b),
      get-delete_ne key' key b other,
    )
