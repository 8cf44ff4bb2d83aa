-- ===== src/Protocol/StarOffers/Tests.antt =====
-- The theorem on a first bid.
use kray_node.Base.{◌+◌, ◌≡◌, none, some, [], arith}
use kray_node.Base.Text.{js}
use kray_node.Base.Decimal.{decimal}
use kray_node.Protocol.StarOffers.{get_offer, put_offer, remove_offer, locked_total}
use kray_node.Protocol.StarOffers.Locked.{price_of, IsOtherBid, put_remove_locked}

other_star : IsOtherBid 7 (js "ana") 8 (js "ana")
other_star (i, a) = absurd (omega (arith, i))

put_remove_locked_example :
    (get_offer 7 (js "ana") (put_offer 7 (js "ana") 5 [])
      ≡ some (record { star = decimal 7; bidder = js "ana"; price = 5 }))
    × (locked_total (put_offer 7 (js "ana") 5 []) + price_of (get_offer 7 (js "ana") [])
        ≡ locked_total [] + 5)
    × (get_offer 8 (js "ana") (put_offer 7 (js "ana") 5 []) ≡ get_offer 8 (js "ana") [])
    × (get_offer 7 (js "ana") (remove_offer 7 (js "ana") []) ≡ none)
    × (locked_total (remove_offer 7 (js "ana") []) + price_of (get_offer 7 (js "ana") [])
        ≡ locked_total [])
    × (get_offer 8 (js "ana") (remove_offer 7 (js "ana") []) ≡ get_offer 8 (js "ana") [])
put_remove_locked_example = put_remove_locked 7 8 (js "ana") (js "ana") 5 [] tt other_star
