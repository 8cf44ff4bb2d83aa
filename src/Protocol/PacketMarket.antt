-- ===== src/Protocol/PacketMarket.antt =====
-- The market of packets, `class PacketMarket` (protocol/packet-market.ts). Amounts and prices are natural
-- numbers; a field that a JSON act may lack is an option, and one of a wrong type is not modelled. The
-- remembered commitment text is not modelled.
use kray_node.Base.{
  ℕ, ◌+◌, Bool, true, false, not, ◌&&◌, ◌||◌, Option, none, some, List, [], ◌∷◌, ◌++◌, ltb, ◌==◌,
  if◌then◌else◌,
}
use kray_node.Base.Text.{Text, js, text_eq, is_blank}
use kray_node.Base.Decimal.{is_digit}
use kray_node.Base.Map.{text_key, Map, get, set, delete}
use kray_node.Economics.RuneKey.{canonical_rune_key}
pub mod Keys
mod Tests

pub data PacketLane : Type 0 where
  kray luz rune : PacketLane

unfoldable pub lane_text : PacketLane → Text
lane_text kray = js "kray"
lane_text luz = js "luz"
lane_text rune = js "rune"

unfoldable pub is_packet_lane : Text → Bool
is_packet_lane t = text_eq t (js "kray") || (text_eq t (js "luz") || text_eq t (js "rune"))

abbrev pub every_digit : Text → Bool
every_digit [] = true
every_digit (c ∷ t) = is_digit c && every_digit t

-- `/^(0|[1-9]\d*)$/`
unfoldable pub is_star : Text → Bool
is_star [] = false
is_star (c ∷ []) = is_digit c
is_star (c ∷ d ∷ t) = is_digit c && (not (c == b'0') && every_digit (d ∷ t))

abbrev pub same_as : Text → Option Text → Option Text
same_as raw none = none
same_as raw (some canon) = if text_eq canon raw then some canon else none

-- `none` is a refusal.
unfoldable pub canonical_asset : PacketLane → Text → Option Text
canonical_asset kray raw = if is_blank raw then some [] else none
canonical_asset luz raw = if is_star raw then some raw else none
canonical_asset rune raw = same_as raw (canonical_rune_key raw)

abbrev pub or_blank : Option Text → Text
or_blank none = []
or_blank (some t) = t

unfoldable pub canonical_packet_asset : PacketLane → Option Text → Option Text
canonical_packet_asset lane asset = canonical_asset lane (or_blank asset)

abbrev pub carried : Option Text → Bool
carried v = not (is_blank (or_blank v))

unfoldable pub is_stray : PacketLane → Option Text → Option Text → Bool
is_stray kray star rune_id = carried star || carried rune_id
is_stray luz star rune_id = carried rune_id
is_stray rune star rune_id = carried star

abbrev pub asset_field : PacketLane → Option Text → Option Text → Option Text
asset_field kray star rune_id = some []
asset_field luz star rune_id = star
asset_field rune star rune_id = rune_id

unfoldable pub packet_asset_of_event : PacketLane → Option Text → Option Text → Option Text
packet_asset_of_event lane star rune_id =
    if is_stray lane star rune_id
    then none
    else canonical_packet_asset lane (asset_field lane star rune_id)

unfoldable pub packet_key : PacketLane → Text → Text → Text
packet_key lane asset seller = lane_text lane ++ (b'|' ∷ (asset ++ (b'|' ∷ seller)))

pub record ListingTerms : Type 0 where
  pub to : Option Text
  pub gate : Option ℕ
  pub not_before : Option ℕ

pub record PacketListing : Type 0 where
  pub seller : Text
  pub lane : PacketLane
  pub asset : Text
  pub amount : ℕ
  pub price : ℕ
  pub terms : ListingTerms

abbrev pub filled : Option Text → Option Text
filled none = none
filled (some t) = if is_blank t then none else some t

abbrev pub positive : Option ℕ → Option ℕ
positive none = none
positive (some n) = if ltb 0 n then some n else none

-- The terms that are copied: a recipient that is not blank, a gate, a time above zero.
unfoldable pub kept_terms : ListingTerms → ListingTerms
kept_terms t = record { to = filled t.to; gate = t.gate; not_before = positive t.not_before }

abbrev pub Market : Type 0
Market = Map Text PacketListing

abbrev pub copied : Option PacketListing → Option PacketListing
copied none = none
copied (some l) = some (record l { terms = kept_terms l.terms })

unfoldable pub get_listing : PacketLane → Text → Text → Market → Option PacketListing
get_listing lane asset seller b = copied (get (packet_key lane asset seller) b)

unfoldable pub listing_of : PacketLane → Text → Text → ℕ → ℕ → ListingTerms → PacketListing
listing_of lane asset seller amount price terms = record {
  seller = seller;
  lane = lane;
  asset = asset;
  amount = amount;
  price = price;
  terms = kept_terms terms;
}

unfoldable pub list : PacketLane → Text → Text → ℕ → ℕ → ListingTerms → Market → Market
list lane asset seller amount price terms b =
    set (packet_key lane asset seller) (listing_of lane asset seller amount price terms) b

unfoldable pub remove : PacketLane → Text → Text → Market → Market
remove lane asset seller b = delete (packet_key lane asset seller) b
