-- ===== src/Protocol/Runestone/Tests.antt =====
-- The theorems on runestones at concrete bytes and names.
use kray_node.Base.{ℕ, ◌≡◌, refl, none, some, List, [], ◌∷◌}
use kray_node.Base.Text.{js}
use kray_node.Base.Map.{get, set, delete, member}
use kray_node.Protocol.Runestone.Artifact.{Runestone, runestone}
use kray_node.Protocol.Runestone.Varint.{
  encode_varint, encode_from, decode_varint, decode_from, decode_varint-encode_varint,
}
use kray_node.Protocol.Runestone.Name.{rune_name, name_from}
use kray_node.Protocol.Runestone.Payload.{
  runestone_payload, payload_from, push_of, slice, running, runestone_payload_endless,
}
use kray_node.Protocol.Runestone.Decipher.Message.{
  scan, scan_from, next_rune_id, edicts_from, message_from, add_field,
}
use kray_node.Protocol.Runestone.Decipher.Fields.{
  take_one, take_two, has_flag, take_terms, take_etching, any_even_tag,
}
use kray_node.Protocol.Runestone.Decipher.Artifacts.{
  decipher, decipher_from, artifact_from, artifact_of, found, sort_flaws, insert_flaw, Deciphered,
}
use kray_node.Protocol.Runestone.Decipher.Bounds.{IsSound, decipher-IsSound}

abbrev three_hundred : List ℕ
three_hundred = 0xac ∷ 0x02 ∷ []

written : encode_varint 300 ≡ some three_hundred
unfolding encode_varint encode_from
written = refl

decode_varint-encode_varint_example : decode_varint (7 ∷ 0xac ∷ 0x02 ∷ 9 ∷ []) 1 ≡ some (300, 3)
decode_varint-encode_varint_example =
    decode_varint-encode_varint 300 (7 ∷ []) (9 ∷ []) three_hundred written

named : rune_name 702 ≡ some (js "AAA")
unfolding rune_name name_from
named = refl

runestone_payload_endless_example :
    runestone_payload 1000 (0x6a ∷ 0x5d ∷ 0x4e ∷ 0xfb ∷ 0xff ∷ 0xff ∷ 0xff ∷ 1 ∷ []) ≡ running
runestone_payload_endless_example = runestone_payload_endless 1000 (1 ∷ [])

-- An edict of 5 units of the rune 2:3 to output 1.
abbrev pub transfer : List ℕ
transfer = 0x6a ∷ 0x5d ∷ 5 ∷ 0 ∷ 2 ∷ 3 ∷ 5 ∷ 1 ∷ []

unfoldable pub deciphered : Deciphered
unfolding decipher decipher_from artifact_from artifact_of sort_flaws insert_flaw take_one take_two
    has_flag take_terms take_etching any_even_tag scan scan_from next_rune_id edicts_from
    message_from add_field decode_varint decode_from runestone_payload payload_from push_of slice
    get set delete member
deciphered = decipher 9 (transfer ∷ (1 ∷ []) ∷ [])

abbrev pub sent : Runestone
sent = record {
  edicts = record { id = record { block = 2; tx = 3 }; amount = 5; output = 1 } ∷ [];
  etching = none;
  mint = none;
  pointer = none;
}

decipher-IsSound_example : IsSound 2 sent
decipher-IsSound_example = decipher-IsSound 9 (transfer ∷ (1 ∷ []) ∷ []) sent read
  where
    read : decipher 9 (transfer ∷ (1 ∷ []) ∷ []) ≡ found (runestone sent)
    read = unfold deciphered in refl

-- A mint of 0:5 is decoded, though 0:5 is no rune.
mint_of_no_rune :
    decipher 9 ((0x6a ∷ 0x5d ∷ 4 ∷ 20 ∷ 0 ∷ 20 ∷ 5 ∷ []) ∷ [])
    ≡ found (
        runestone (record {
          edicts = [];
          etching = none;
          mint = some (record { block = 0; tx = 5 });
          pointer = none;
        }))
unfolding decipher decipher_from artifact_from artifact_of sort_flaws insert_flaw take_one take_two
    has_flag take_terms take_etching any_even_tag scan scan_from next_rune_id edicts_from
    message_from add_field decode_varint decode_from runestone_payload payload_from push_of slice
    get set delete member
mint_of_no_rune = refl
