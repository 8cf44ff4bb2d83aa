-- ===== src/Protocol/CutBook/Valid.antt =====
-- What every write to the book of Luz keeps (protocol/cut-book.ts).
use kray_node.Base.{ℕ, ◌≤◌, ◌≡◌, false, none, some, [], arith}
use kray_node.Base.Text.{Text, text_eq_iff, is_blank}
use kray_node.Base.Map.{text_key, nat_key, Map, get, get_or, set, Distinct, get-set, set-Distinct}
use kray_node.Protocol.CutBook.{CutBook, endow, publish, pay_row, pay, hand}
use kray_node.Protocol.CutBook.Rows.{IsEdition, IsSpent, Holds, pay_row-IsSpent, set-IsEdition}

pub record IsValid (b : CutBook) : Type 0 where
  pub supplies_distinct : Distinct b.supply
  pub serial_cut : (k : Text) → get k b.supply ≡ none → get k b.serial_owners ≡ none
  pub holds :
      (k : Text) (cap : ℕ)
      → get k b.supply ≡ some cap
      → Holds cap (get k b.serial_owners) (get_or [] k b.bal)

pub endow-IsValid :
    (k : Text) (cap : ℕ) (row : Map Text ℕ) (b : CutBook)
    → get k b.supply ≡ none
    → IsSpent cap row
    → IsValid b
    → IsValid (endow k cap row b)
unfolding endow
endow-IsValid k cap row b fresh spent h = record {
  supplies_distinct = set-Distinct k cap b.supply h.supplies_distinct;
  serial_cut = λ j none_there. ground (arith, none_there, get-set j k cap b.supply, h.serial_cut j);
  holds = λ j c e. ground (
    arith,
    e,
    fresh,
    spent,
    text_eq_iff k j,
    h.serial_cut k fresh,
    h.holds j c,
    get-set j k cap b.supply,
    get-set j k row b.bal,
  );
}

pub publish-IsValid :
    (k : Text) (cap : ℕ) (units : Map ℕ Text) (b : CutBook)
    → get k b.supply ≡ none
    → IsEdition cap units
    → IsValid b
    → IsValid (publish k cap units b)
unfolding publish
publish-IsValid k cap units b fresh edition h = record {
  supplies_distinct = set-Distinct k cap b.supply h.supplies_distinct;
  serial_cut = λ j none_there. ground (
    arith,
    none_there,
    get-set j k cap b.supply,
    get-set j k units b.serial_owners,
    h.serial_cut j,
  );
  holds = λ j c e. ground (
    arith,
    e,
    edition,
    text_eq_iff k j,
    h.holds j c,
    get-set j k cap b.supply,
    get-set j k units b.serial_owners,
  );
}

pub pay-IsValid :
    (k from to : Text) (n : ℕ) (b : CutBook)
    → get k b.serial_owners ≡ none
    → n ≤ get_or 0 from (get_or [] k b.bal)
    → IsValid b
    → IsValid (pay k from to n b)
unfolding pay
pay-IsValid k from to n b fungible le h =
    let row = get_or [] k b.bal in
    record {
      supplies_distinct = h.supplies_distinct;
      serial_cut = h.serial_cut;
      holds = λ j c e. ground (
        arith,
        e,
        fungible,
        text_eq_iff k j,
        h.holds j c e,
        pay_row-IsSpent from to n c row le,
        get-set j k (pay_row from to n row) b.bal,
      );
    }

pub hand-IsValid :
    (k : Text) (u : ℕ) (from to : Text) (units : Map ℕ Text) (b : CutBook)
    → get k b.serial_owners ≡ some units
    → get u units ≡ some from
    → is_blank to ≡ false
    → IsValid b
    → IsValid (hand k u to units b)
unfolding hand
hand-IsValid k u from to units b serial owned named h = record {
  supplies_distinct = h.supplies_distinct;
  serial_cut = λ j e. ground (
    arith,
    e,
    serial,
    text_eq_iff k j,
    h.serial_cut j e,
    get-set j k (set u to units) b.serial_owners,
  );
  holds = λ j c e. ground (
    arith,
    e,
    serial,
    text_eq_iff k j,
    h.holds j c e,
    set-IsEdition u c from to units owned named,
    get-set j k (set u to units) b.serial_owners,
  );
}
