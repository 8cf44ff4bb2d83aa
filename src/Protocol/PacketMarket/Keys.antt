-- ===== src/Protocol/PacketMarket/Keys.antt =====
-- Two listings share a key only if they are one (protocol/packet-market.ts).
use kray_node.Base.{
  ℕ, ◌≡◌, refl, true, false, Option, none, some, [], ◌∷◌, ◌++◌, ltb, ◌==◌, All, arith, Bool-cases,
  inl, inr,
}
use kray_node.Base.Text.{Text, text_eq, text_eq_sound, text_eq_complete, is_blank}
use kray_node.Base.Decimal.{decimal, is_digit, decimal_digits}
use kray_node.Base.Map.{text_key, get, set, Distinct, get-set, get-delete_ne, get-delete_self}
use kray_node.Protocol.Runestone.Artifact.{RuneId}
use kray_node.Economics.RuneKey.{rune_key, canonical_rune_key, canonical_rune_key_sound}
use kray_node.Protocol.PacketMarket.{
  PacketLane, kray, luz, rune, lane_text, every_digit, is_star, same_as, canonical_asset,
  packet_key, ListingTerms, kept_terms, listing_of, Market, get_listing, list, remove, filled,
  positive,
}

abbrev NoBar : Text → Type 0
NoBar t = All (λ c. (c == b'|') ≡ false) t

bar_first-inj :
    (a b s t : Text) → NoBar a → NoBar b → a ++ (b'|' ∷ s) ≡ b ++ (b'|' ∷ t) → (a ≡ b) × (s ≡ t)
bar_first-inj [] [] s t ha hb e = (refl, cc)
bar_first-inj [] (y ∷ b) s t ha (hy, hb) e = ground (arith, e, hy)
bar_first-inj (x ∷ a) [] s t (hx, ha) hb e = ground (arith, e, hx)
bar_first-inj (x ∷ a) (y ∷ b) s t (hx, ha) (hy, hb) e =
    ground (arith, e, bar_first-inj a b s t ha hb)

lane_text-NoBar : (lane : PacketLane) → NoBar (lane_text lane)
unfolding lane_text
lane_text-NoBar kray = (refl, (refl, (refl, (refl, tt))))
lane_text-NoBar luz = (refl, (refl, (refl, tt)))
lane_text-NoBar rune = (refl, (refl, (refl, (refl, tt))))

lane_text-inj : (l m : PacketLane) → lane_text l ≡ lane_text m → l ≡ m
unfolding lane_text
lane_text-inj kray kray e = refl
lane_text-inj kray luz e = ground (arith, e)
lane_text-inj kray rune e = ground (arith, e)
lane_text-inj luz kray e = ground (arith, e)
lane_text-inj luz luz e = refl
lane_text-inj luz rune e = ground (arith, e)
lane_text-inj rune kray e = ground (arith, e)
lane_text-inj rune luz e = ground (arith, e)
lane_text-inj rune rune e = refl

every_digit-NoBar : (t : Text) → every_digit t ≡ true → NoBar t
every_digit-NoBar [] h = tt
every_digit-NoBar (c ∷ t) h = (ground (arith, h), every_digit-NoBar t (ground (arith, h)))

is_star-NoBar : (t : Text) → is_star t ≡ true → NoBar t
unfolding is_star
is_star-NoBar [] h = tt
is_star-NoBar (c ∷ []) h = (ground (arith, h), tt)
is_star-NoBar (c ∷ d ∷ t) h = (ground (arith, h), every_digit-NoBar (d ∷ t) (ground (arith, h)))

digits-NoBar : (t : Text) → All (λ c. is_digit c ≡ true) t → NoBar t
digits-NoBar [] h = tt
digits-NoBar (c ∷ t) (p, h) = (ground (arith, p), digits-NoBar t h)

append-NoBar : (s t : Text) → NoBar s → NoBar t → NoBar (s ++ t)
append-NoBar [] t hs ht = ht
append-NoBar (c ∷ s) t (p, hs) ht = (p, append-NoBar s t hs ht)

rune_key-NoBar : (id : RuneId) → NoBar (rune_key id)
unfolding rune_key
rune_key-NoBar id =
    append-NoBar (decimal id.block) (b':' ∷ decimal id.tx)
      (digits-NoBar (decimal id.block) (decimal_digits id.block))
      (refl, digits-NoBar (decimal id.tx) (decimal_digits id.tx))

same_as_sound : (raw asset : Text) (o : Option Text) → same_as raw o ≡ some asset → o ≡ some asset
same_as_sound raw asset none e = cc
same_as_sound raw asset (some canon) e = ground (arith, e)

canonical_asset-NoBar :
    (lane : PacketLane) (raw asset : Text) → canonical_asset lane raw ≡ some asset → NoBar asset
unfolding canonical_asset
canonical_asset-NoBar kray raw asset e = let n : asset ≡ [] = ground (arith, e) in rw n tt
canonical_asset-NoBar luz raw asset e =
    let n : asset ≡ raw = ground (arith, e) in rw n (is_star-NoBar raw (ground (arith, e)))
canonical_asset-NoBar rune raw asset e =
    let (id, n) =
      canonical_rune_key_sound raw asset (same_as_sound raw asset (canonical_rune_key raw) e) in
    rw n (rune_key-NoBar id)

-- The assets have passed the gate of their lane, from any spelling. Then equal keys have one lane, one
-- asset and one seller, whatever letters the sellers have.
pub packet_key-inj :
    (l m : PacketLane) (raw raw' a b s t : Text)
    → canonical_asset l raw ≡ some a
    → canonical_asset m raw' ≡ some b
    → packet_key l a s ≡ packet_key m b t
    → (l ≡ m) × (a ≡ b) × (s ≡ t)
unfolding packet_key
packet_key-inj l m raw raw' a b s t ea eb e =
    let (el, e1) =
      bar_first-inj (lane_text l) (lane_text m) _ _ (lane_text-NoBar l) (lane_text-NoBar m) e in
    let (ex, es) =
      bar_first-inj a b s t (canonical_asset-NoBar l raw a ea) (canonical_asset-NoBar m raw' b eb)
        e1 in
    (lane_text-inj l m el, ex, es)

filled_idem : (o : Option Text) → filled (filled o) ≡ filled o
filled_idem none = refl
filled_idem (some t) = elim (Bool-cases (is_blank t)) [ inl e ↦ rw e | inr e ↦ rw (e, e) ]

positive_idem : (o : Option ℕ) → positive (positive o) ≡ positive o
positive_idem none = refl
positive_idem (some n) = elim (Bool-cases (ltb 0 n)) [ inl e ↦ rw (e, e) | inr e ↦ rw e ]

kept_terms_idem : (t : ListingTerms) → kept_terms (kept_terms t) ≡ kept_terms t
unfolding kept_terms
kept_terms_idem t = λ i. record {
  to = filled_idem t.to i;
  gate = t.gate;
  not_before = positive_idem t.not_before i;
}

-- Another offer than the one at a lane, an asset and a seller.
abbrev pub IsOther : PacketLane → Text → Text → PacketLane → Text → Text → Type 0
IsOther l a s m b t = ¬ ((l ≡ m) × (a ≡ b) × (s ≡ t))

other_key :
    (l m : PacketLane) (raw raw' a b s t : Text)
    → canonical_asset l raw ≡ some a
    → canonical_asset m raw' ≡ some b
    → IsOther l a s m b t
    → text_eq (packet_key l a s) (packet_key m b t) ≡ false
other_key l m raw raw' a b s t ea eb o =
    elim (Bool-cases (text_eq (packet_key l a s) (packet_key m b t))) [
      | inl e ↦ absurd (
          o (
            packet_key-inj l m raw raw' a b s t ea eb
              (text_eq_sound (packet_key l a s) (packet_key m b t) e)))
      | inr e ↦ e
    ]

module _ (l m : PacketLane) (raw raw' a b s t : Text) (ea : canonical_asset l raw ≡ some a)
    (eb : canonical_asset m raw' ≡ some b) where
  -- The assets have passed the gates of their lanes. An offer that is listed is read back as it was
  -- listed, less the terms that say nothing, and every other offer stays; and an offer that is
  -- removed from a market with one entry for each key is gone, and every other offer stays.
  pub get_listing-list-remove :
      (n p : ℕ) (terms : ListingTerms) (book : Market)
      → Distinct book
      → IsOther l a s m b t
      → (get_listing l a s (list l a s n p terms book) ≡ some (listing_of l a s n p terms))
        × (get_listing m b t (list l a s n p terms book) ≡ get_listing m b t book)
        × (get_listing l a s (remove l a s book) ≡ none)
        × (get_listing m b t (remove l a s book) ≡ get_listing m b t book)
  unfolding get_listing list remove listing_of
  get_listing-list-remove n p terms book d o =
      let key = packet_key l a s in
      let key' = packet_key m b t in
      let new = listing_of l a s n p terms in
      let self : text_eq key key ≡ true = text_eq_complete key key refl in
      let other = other_key l m raw raw' a b s t ea eb o in
      let found : get key (set key new book) ≡ some new =
        ground (arith, get-set key key new book, self) in
      let kept : get key' (set key new book) ≡ get key' book =
        ground (arith, get-set key' key new book, other) in
      (
        rw (found, kept_terms_idem terms),
        rw kept,
        rw (get-delete_self key book d),
        rw (get-delete_ne key' key book other),
      )
