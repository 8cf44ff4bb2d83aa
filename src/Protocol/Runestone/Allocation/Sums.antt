-- ===== src/Protocol/Runestone/Allocation/Sums.antt =====
-- How much of a rune lies in balances, in outputs and in the unallocated pool, and what each write of
-- the transfer law does to these sums (runestone.ts).
use kray_node.Base.{
  ℕ, ◌+◌, ◌≡◌, refl, Option, none, some, List, [], ◌∷◌, ◌++◌, arith, ◌==◌, if◌then◌else◌, sum_by,
  sum_by-append, Option-cases, inl, inr, Bool-cases,
}
use kray_node.Base.Map.{nat_key, get, get_or, set, sum_values, sum_values-set, weight}
use kray_node.Protocol.Runestone.Artifact.{RuneId}
use kray_node.Protocol.Runestone.Allocation.{
  same_rune, same_rune_iff, rune_id_key, RuneBalance, Outputs, Pool, pour, pour_all, pour_some,
  burn_all, add_balance, give,
}

module _ (j : RuneId) where
  abbrev pub part : RuneBalance → ℕ
  part b = if same_rune b.id j then b.amount else 0

  -- What a list of balances holds of the rune `j`.
  unfoldable pub amount_of : List RuneBalance → ℕ
  amount_of bs = sum_by part bs

  unfoldable pub in_outputs : Outputs → ℕ
  in_outputs o = sum_values amount_of o

  unfoldable pub pooled : Pool → ℕ
  pooled [] = 0
  pooled ((id, n) ∷ u) = (if same_rune id j then n else 0) + pooled u

  -- `n` units of the rune `id`, seen from `j`.
  abbrev pub units : RuneId → ℕ → ℕ
  units id n = if same_rune id j then n else 0

  pub amount_of-append :
      (bs cs : List RuneBalance) → amount_of (bs ++ cs) ≡ amount_of bs + amount_of cs
  unfolding amount_of
  amount_of-append bs cs = sum_by-append part bs cs

  amount_of-add_balance :
      (id : RuneId) (n : ℕ) (bs : List RuneBalance)
      → amount_of (add_balance id n bs) ≡ amount_of bs + units id n
  unfolding amount_of add_balance
  amount_of-add_balance id n [] = ground arith
  amount_of-add_balance id n (b ∷ bs) =
      ground (arith, amount_of-add_balance id n bs, same_rune_iff b.id id)

  carried : (out : ℕ) (o : Outputs) → amount_of (get_or [] out o) ≡ weight amount_of out o
  unfolding amount_of
  carried out o = elim (Option-cases (get out o)) [
    | inl e ↦ ground (arith, e)
    | inr (bs, e) ↦ ground (arith, e)
  ]

  pub in_outputs-give :
      (out : ℕ) (id : RuneId) (n : ℕ) (o : Outputs)
      → in_outputs (give out id n o) ≡ in_outputs o + units id n
  unfolding in_outputs give
  in_outputs-give out id n o =
      let bs = get_or [] out o in
      let written = sum_values-set amount_of out (add_balance id n bs) o in
      let more = amount_of-add_balance id n bs in
      elim (Bool-cases (n == 0)) [
        | inl e ↦ ground (arith, e)
        | inr e ↦ rw e (omega (arith, written, more, carried out o))
      ]

  pub pooled-set :
      (id : RuneId) (n : ℕ) (u : Pool)
      → pooled (set id n u) + units id (get_or 0 id u) ≡ pooled u + units id n
  unfolding pooled set get
  pooled-set id n [] = ground arith
  pooled-set id n ((i, v) ∷ u) = ground (arith, pooled-set id n u, same_rune_iff i id)

  pub pooled-pour : (id : RuneId) (n : ℕ) (u : Pool) → pooled (pour id n u) ≡ pooled u + units id n
  unfolding pour
  pooled-pour id n u = ground (arith, pooled-set id (get_or 0 id u + n) u)

  pub pooled-pour_all :
      (bs : List RuneBalance) (u : Pool) → pooled (pour_all bs u) ≡ pooled u + amount_of bs
  unfolding pour_all amount_of
  pooled-pour_all [] u = omega arith
  pooled-pour_all (b ∷ bs) u =
      omega (arith, pooled-pour b.id b.amount u, pooled-pour_all bs (pour b.id b.amount u))

  -- What an optional rune and an optional amount add.
  abbrev pub units_of : Option RuneId → Option ℕ → ℕ
  units_of none n = 0
  units_of (some id) none = 0
  units_of (some id) (some n) = units id n

  pub pooled-pour_some :
      (id : Option RuneId) (n : Option ℕ) (u : Pool)
      → pooled (pour_some id n u) ≡ pooled u + units_of id n
  unfolding pour_some
  pooled-pour_some none n u = omega arith
  pooled-pour_some (some id) none u = omega arith
  pooled-pour_some (some id) (some n) u = ground (arith, pooled-pour id n u)

  pub amount_of-burn_all : (u : Pool) → amount_of (burn_all u).burned ≡ pooled u
  unfolding amount_of burn_all pooled
  amount_of-burn_all [] = refl
  amount_of-burn_all ((id, n) ∷ u) = ground (arith, amount_of-burn_all u)
