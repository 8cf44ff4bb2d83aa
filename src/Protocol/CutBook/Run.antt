-- ===== src/Protocol/CutBook/Run.antt =====
-- Every run of the book of Luz conserves (protocol/cut-book.ts).
use kray_node.Base.{
  ℕ, zero, suc, ◌≤◌, ◌≡◌, refl, true, false, Option, none, some, List, [], ◌∷◌, length, All, arith,
  Option-cases, inl, inr,
}
use kray_node.Base.Text.{Text, text_eq_iff, is_blank}
use kray_node.Base.Map.{text_key, nat_key, Map, get, get_or}
use kray_node.Base.Result.{Result-cases}
use kray_node.Protocol.CutBook.{
  Credit, CutBook, empty_cut, gather, genesis_alloc, assign, genesis_serial, send, send_unit, Act,
  alloc_act, serial_act, send_act, unit_act, apply, replay,
}
use kray_node.Base.Map.{get-All}
use kray_node.Protocol.CutBook.Rows.{
  IsEdition, IsSpent, Holds, gather-IsSpent, assign-IsEdition, empty-IsEdition, empty-IsSpent,
}
use kray_node.Protocol.CutBook.Valid.{
  IsValid, endow-IsValid, publish-IsValid, pay-IsValid, hand-IsValid,
}
use kray_node.Protocol.CutBook.{of}
use kray_node.Protocol.CutBook.Views.{all_owned, conserves_star, conserves_from, conserves}

-- A unit is never sent to the blank address.
abbrev pub IsAddressed : Act → Type 0
IsAddressed (alloc_act k supply credits) = Unit
IsAddressed (serial_act k supply credits) = Unit
IsAddressed (send_act k from to n) = Unit
IsAddressed (unit_act k from to unit) = is_blank to ≡ false

genesis_alloc-IsValid :
    (k : Text) (supply : ℕ) (credits : List Credit) (b : CutBook)
    → IsValid b
    → IsValid (genesis_alloc k supply credits b).1
unfolding genesis_alloc
genesis_alloc-IsValid k supply credits b h = elim (Result-cases (gather credits [] 0)) [
  | inl (r, e) ↦ ground (arith, e, h)
  | inr (spent, e) ↦
      let whole = gather-IsSpent credits [] 0 spent e empty-IsSpent in
      ground (arith, e, h, whole, endow-IsValid k spent.1 spent.0 b)
]

genesis_serial-IsValid :
    (k : Text) (supply : ℕ) (credits : List Credit) (b : CutBook)
    → IsValid b
    → IsValid (genesis_serial k supply credits b).1
unfolding genesis_serial
genesis_serial-IsValid k supply credits b h = elim (Result-cases (assign credits 0 [])) [
  | inl (r, e) ↦ ground (arith, e, h)
  | inr (spent, e) ↦
      let whole = assign-IsEdition credits 0 [] spent e empty-IsEdition in
      ground (arith, e, h, whole, publish-IsValid k spent.1 spent.0 b)
]

send-IsValid : (k from to : Text) (n : ℕ) (b : CutBook) → IsValid b → IsValid (send k from to n b).1
unfolding send of
send-IsValid k from to n b h = elim (Option-cases (get k b.serial_owners)) [
  | inl e ↦ ground (arith, e, h, pay-IsValid k from to n b e)
  | inr (units, e) ↦ ground (arith, e, h)
]

send_unit-IsValid :
    (k from to : Text) (unit : ℕ) (b : CutBook)
    → is_blank to ≡ false
    → IsValid b
    → IsValid (send_unit k from to unit b).1
unfolding send_unit
send_unit-IsValid k from to unit b named h = elim (Option-cases (get k b.serial_owners)) [
  | inl e ↦ ground (arith, e, h)
  | inr (units, e) ↦ elim (Option-cases (get unit units)) [
    | inl f ↦ ground (arith, e, f, h)
    | inr (owner, f) ↦
        ground
          (arith, e, f, h, named, text_eq_iff owner from, hand-IsValid k unit owner to units b e f)
  ]
]

pub apply-IsValid :
    (act : Act) (b : CutBook) → IsAddressed act → IsValid b → IsValid (apply act b).1
unfolding apply
apply-IsValid (alloc_act k supply credits) b a h = genesis_alloc-IsValid k supply credits b h
apply-IsValid (serial_act k supply credits) b a h = genesis_serial-IsValid k supply credits b h
apply-IsValid (send_act k from to n) b a h = send-IsValid k from to n b h
apply-IsValid (unit_act k from to unit) b a h = send_unit-IsValid k from to unit b a h

pub replay-IsValid :
    (acts : List Act) (b : CutBook) → All IsAddressed acts → IsValid b → IsValid (replay acts b)
unfolding replay
replay-IsValid [] b a h = h
replay-IsValid (act ∷ acts) b (a, rest) h =
    replay-IsValid acts (apply act b).1 rest (apply-IsValid act b a h)

pub empty-IsValid : IsValid empty_cut
unfolding get
empty-IsValid = record { supplies_distinct = tt; serial_cut = λ k e. refl; holds = λ k cap e. cc }

all_owned_edition :
    (n cap : ℕ) (units : Map ℕ Text) → n ≤ cap → IsEdition cap units → all_owned n units ≡ true
unfolding all_owned IsEdition
all_owned_edition zero cap units le h = refl
all_owned_edition (suc n) cap units le h = elim (Option-cases (get (suc n) units)) [
  | inl e ↦ absurd (ground (arith, e, h.1 (suc n) (omega arith) le))
  | inr (owner, e) ↦
      ground (arith, e, h.1 (suc n) (omega arith) le, all_owned_edition n cap units (omega arith) h)
]

conserves_star-Holds :
    (cap : ℕ) (units : Option (Map ℕ Text)) (row : Map Text ℕ)
    → Holds cap units row
    → conserves_star cap units row ≡ true
unfolding IsSpent
conserves_star-Holds cap none row h = ground (arith, h.0)
conserves_star-Holds cap (some units) row h =
    ground (arith, length_is h, all_owned_edition cap cap units (omega arith) h)
  where
    length_is : IsEdition cap units → length units ≡ cap
    length_is h = unfold IsEdition in h.0

abbrev StarHolds : CutBook → Text → ℕ → Type 0
StarHolds b k cap = Holds cap (get k b.serial_owners) (get_or [] k b.bal)

conserves_from_holds :
    (m : Map Text ℕ) (b : CutBook)
    → All (λ (x : Text × ℕ). StarHolds b x.0 x.1) m
    → conserves_from m b ≡ true
unfolding conserves_from
conserves_from_holds [] b h = refl
conserves_from_holds ((k, cap) ∷ m) b (here, h) = ground (
  arith,
  conserves_star-Holds cap (get k b.serial_owners) (get_or [] k b.bal) here,
  conserves_from_holds m b h,
)

-- After any run of calls from the empty book, accepted or refused, in which no unit is sent to the blank
-- address, `conserves` answers that every star's Luz is whole: a fungible book spends its supply, and
-- each unit of a serial one has an owner.
pub conserves-replay :
    (acts : List Act) → All IsAddressed acts → conserves (replay acts empty_cut) ≡ true
unfolding conserves
conserves-replay acts a =
    let b = replay acts empty_cut in
    let h = replay-IsValid acts empty_cut a empty-IsValid in
    conserves_from_holds b.supply b (get-All {P = StarHolds b} b.supply h.supplies_distinct h.holds)
