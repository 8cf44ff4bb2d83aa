-- ===== src/Protocol/PacketMarket/Tests.antt =====
-- The theorems on an offer of Luz and one of a rune.
use kray_node.Base.{arith, ◌≡◌, refl, none, some, []}
use kray_node.Base.Text.{js}
use kray_node.Protocol.PacketMarket.{
  luz, canonical_asset, packet_asset_of_event, canonical_packet_asset, is_stray, is_star,
  ListingTerms, listing_of, list, remove, get_listing,
}
use kray_node.Protocol.PacketMarket.Keys.{IsOther, get_listing-list-remove}

luz_seven : canonical_asset luz (js "7") ≡ some (js "7")
unfolding canonical_asset is_star
luz_seven = refl

luz_eight : canonical_asset luz (js "8") ≡ some (js "8")
unfolding canonical_asset is_star
luz_eight = refl

padded_star : packet_asset_of_event luz (some (js "07")) none ≡ none
unfolding packet_asset_of_event canonical_packet_asset canonical_asset is_stray is_star
padded_star = refl

abbrev no_terms : ListingTerms
no_terms = record { to = none; gate = none; not_before = some 0 }

seven_is_not_eight : IsOther luz (js "7") (js "ana") luz (js "8") (js "ana")
seven_is_not_eight (l, a, s) = ground (arith, a)

get_listing-list-remove_example :
    (get_listing luz (js "7") (js "ana") (list luz (js "7") (js "ana") 5 9 no_terms [])
      ≡ some (listing_of luz (js "7") (js "ana") 5 9 no_terms))
    × (get_listing luz (js "8") (js "ana") (list luz (js "7") (js "ana") 5 9 no_terms [])
        ≡ get_listing luz (js "8") (js "ana") [])
    × (get_listing luz (js "7") (js "ana") (remove luz (js "7") (js "ana") []) ≡ none)
    × (get_listing luz (js "8") (js "ana") (remove luz (js "7") (js "ana") [])
        ≡ get_listing luz (js "8") (js "ana") [])
get_listing-list-remove_example =
    get_listing-list-remove luz luz (js "7") (js "8") (js "7") (js "8") (js "ana") (js "ana")
      luz_seven luz_eight 5 9 no_terms [] tt seven_is_not_eight
