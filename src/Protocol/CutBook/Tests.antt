-- ===== src/Protocol/CutBook/Tests.antt =====
-- The theorems on Luz at concrete stars.
use kray_node.Base.{◌≡◌, refl, true, some, List, [], ◌∷◌, All}
use kray_node.Base.Text.{Text, js, text_eq, text_lt}
use kray_node.Base.Map.{get, set, delete, sum_values}
use kray_node.Base.Sort.{sort, insert}
use kray_node.Protocol.CutBook.{
  CutBook, empty_cut, of, gather, endow, genesis_alloc, number_units, assign, publish,
  genesis_serial, pay_row, pay, send, hand, send_unit, Act, alloc_act, serial_act, send_act,
  unit_act, apply, replay,
}
use kray_node.Protocol.CutBook.Views.{
  conserves, CutView, view, view_of, count_owners, positive_rows,
}
use kray_node.Protocol.CutBook.Run.{IsAddressed, conserves-replay}
use kray_node.Protocol.CutBook.Refinement.{replay_refines}
use kray_node.Protocol.CutBook.Holdings.{holdings}
use kray_node.Protocol.CutBook.Refinement.{spec_replay}

abbrev ann : Text
ann = js "ann"

abbrev bob : Text
bob = js "bob"

-- Star 7 is fungible; star 8 has three numbered units; the last send is refused.
abbrev calls : List Act
calls =
    alloc_act (js "7") 10 (record { to = ann; amount = 10 } ∷ [])
    ∷ serial_act (js "8") 3 (record { to = bob; amount = 1 } ∷ record { to = ann; amount = 2 } ∷ [])
    ∷ send_act (js "7") ann bob 4
    ∷ unit_act (js "8") ann bob 2
    ∷ unit_act (js "8") ann bob 2
    ∷ []

abbrev addressed : All IsAddressed calls
addressed = (tt, (tt, (tt, (refl, (refl, tt)))))

called : CutBook
unfolding replay apply genesis_alloc genesis_serial send send_unit gather endow number_units assign
    publish pay_row pay hand of view view_of count_owners positive_rows get set delete sum_values
    text_eq text_lt sort insert
called = replay calls empty_cut

conserves-replay_example : conserves (replay calls empty_cut) ≡ true
conserves-replay_example = conserves-replay calls addressed

replay_refines_example : holdings (replay calls empty_cut) ≡ spec_replay calls empty_cut (λ k a. 0)
replay_refines_example = replay_refines calls addressed

abbrev seen : CutView
seen = record {
  star = js "8";
  supply = 3;
  circulating = 3;
  holders = (bob, 2) ∷ (ann, 1) ∷ [];
  units = some ((1, bob) ∷ (2, bob) ∷ (3, ann) ∷ []);
}
