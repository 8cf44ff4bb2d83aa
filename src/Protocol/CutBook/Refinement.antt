-- ===== src/Protocol/CutBook/Refinement.antt =====
-- The book of Luz implements one abstract ledger, whichever way it keeps a star: each call is a change
-- to the table of holdings (protocol/cut-book.ts).
use kray_node.Base.{
  ℕ, ◌≡◌, refl, ap, ◌∙◌, fun_ext, true, Option, none, some, List, [], ◌∷◌, All, arith, Option-cases,
  inl, inr,
}
use kray_node.Base.Text.{Text, text_eq_iff}
use kray_node.Base.Map.{text_key, nat_key, Map, get, has, get_or, Distinct}
use kray_node.Base.Result.{Result-cases}
use kray_node.Protocol.CutBook.{
  Credit, CutBook, empty_cut, of, gather, genesis_alloc, assign, genesis_serial, send, send_unit,
  Act, alloc_act, serial_act, send_act, unit_act, apply, replay,
}
use kray_node.Protocol.CutBook.Rows.{IsSpent, Holds}
use kray_node.Protocol.CutBook.Valid.{IsValid}
use kray_node.Protocol.CutBook.Run.{IsAddressed, apply-IsValid, empty-IsValid}
use kray_node.Protocol.CutBook.Holdings.{
  Holdings, holdings, spec_step, gather_credited, assign_credited, of-endow, of-publish, of-pay,
  of-hand, no_row, no_units, IsFresh,
}

-- What a call does to each holding, refused or accepted.
abbrev Refines : Act → CutBook → Type 0
Refines act b =
    (j a : Text) → of j a (apply act b).1 ≡ spec_step (apply act b).0 act (holdings b) j a

alloc-Refines :
    (k : Text) (supply : ℕ) (cs : List Credit) (b : CutBook)
    → IsValid b
    → Refines (alloc_act k supply cs) b
unfolding apply genesis_alloc
alloc-Refines k supply cs b h j a = elim (Result-cases (gather cs [] 0)) [
  | inl (r, e) ↦ ground (arith, e)
  | inr (spent, e) ↦ ground (
    arith,
    e,
    text_eq_iff k j,
    h.serial_cut k,
    of-endow k j a supply spent.0 b,
    gather_credited a cs [] 0 spent e,
    no_row a,
  )
]

serial-Refines :
    (k : Text) (supply : ℕ) (cs : List Credit) (b : CutBook) → Refines (serial_act k supply cs) b
unfolding apply genesis_serial
serial-Refines k supply cs b j a = elim (Result-cases (assign cs 0 [])) [
  | inl (r, e) ↦ ground (arith, e)
  | inr (spent, e) ↦ ground (
    arith,
    e,
    text_eq_iff k j,
    of-publish k j a supply spent.0 b,
    assign_credited a cs 0 [] spent e nobody,
    no_units a,
  )
]
  where
    nobody : IsFresh 0 []
    nobody u gt = unfold get in refl

row-Distinct :
    (k : Text) (b : CutBook)
    → IsValid b
    → has k b.supply ≡ true
    → get k b.serial_owners ≡ none
    → Distinct (get_or [] k b.bal)
unfolding IsSpent
row-Distinct k b h there e = elim (Option-cases (get k b.supply)) [
  | inl f ↦ absurd (ground (arith, f, there))
  | inr (cap, f) ↦ (of_holds cap (get k b.serial_owners) e (h.holds k cap f))
]
  where
    of_holds :
        (cap : ℕ) (units : Option (Map ℕ Text))
        → units ≡ none
        → Holds cap units (get_or [] k b.bal)
        → Distinct (get_or [] k b.bal)
    of_holds c none e held = held.1
    of_holds c (some units) e held = cc

send-Refines :
    (k from to : Text) (n : ℕ) (b : CutBook) → IsValid b → Refines (send_act k from to n) b
unfolding apply send
send-Refines k from to n b h j a = elim (Option-cases (get k b.serial_owners)) [
  | inl e ↦ ground (arith, e, row-Distinct k b h, of-pay k from to j a n b e)
  | inr (units, e) ↦ ground (arith, e)
]

unit-Refines : (k from to : Text) (unit : ℕ) (b : CutBook) → Refines (unit_act k from to unit) b
unfolding apply send_unit
unit-Refines k from to unit b j a = elim (Option-cases (get k b.serial_owners)) [
  | inl e ↦ ground (arith, e)
  | inr (units, e) ↦ elim (Option-cases (get unit units)) [
    | inl f ↦ ground (arith, e, f)
    | inr (owner, f) ↦
        ground (arith, e, f, text_eq_iff owner from, of-hand k from to j a unit units b e)
  ]
]

pub apply_refines :
    (act : Act) (b : CutBook)
    → IsValid b
    → holdings (apply act b).1 ≡ spec_step (apply act b).0 act (holdings b)
apply_refines (alloc_act k supply cs) b h =
    fun_ext λ j. fun_ext λ a. alloc-Refines k supply cs b h j a
apply_refines (serial_act k supply cs) b h =
    fun_ext λ j. fun_ext λ a. serial-Refines k supply cs b j a
apply_refines (send_act k from to n) b h =
    fun_ext λ j. fun_ext λ a. send-Refines k from to n b h j a
apply_refines (unit_act k from to unit) b h =
    fun_ext λ j. fun_ext λ a. unit-Refines k from to unit b j a

-- The abstract ledger over the same calls, told which of them were accepted.
unfoldable pub spec_replay : List Act → CutBook → Holdings → Holdings
spec_replay [] b h = h
spec_replay (act ∷ acts) b h = spec_replay acts (apply act b).1 (spec_step (apply act b).0 act h)

replay_refines_from :
    (acts : List Act) (b : CutBook)
    → All IsAddressed acts
    → IsValid b
    → holdings (replay acts b) ≡ spec_replay acts b (holdings b)
unfolding replay spec_replay
replay_refines_from [] b a h = refl
replay_refines_from (act ∷ acts) b (a, rest) h =
    replay_refines_from acts (apply act b).1 rest (apply-IsValid act b a h)
    ∙ ap (spec_replay acts (apply act b).1) (apply_refines act b h)

no_holdings : holdings empty_cut ≡ (λ k a. 0)
unfolding of get
no_holdings = refl

-- Over any run of calls from the empty book in which no unit is sent to the blank address, `of` reads as
-- the abstract ledger does that starts empty and takes each accepted call as one change: a genesis
-- credits its list, and a send moves its amount, or its one unit, whichever way the star is kept.
pub replay_refines :
    (acts : List Act)
    → All IsAddressed acts
    → holdings (replay acts empty_cut) ≡ spec_replay acts empty_cut (λ k a. 0)
replay_refines acts a =
    replay_refines_from acts empty_cut a empty-IsValid ∙ ap (spec_replay acts empty_cut) no_holdings
