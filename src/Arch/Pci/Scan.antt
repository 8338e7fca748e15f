-- ===== src/Arch/Pci/Scan.antt =====
-- The search of pci_find and pci_find_any over buses, slots and functions.
use mksd_old_archive.Base.{
  ℕ, zero, suc, ◌+◌, ◌*◌, ◌/◌, ◌%◌, ◌≤◌, ◌<◌, ◌≡◌, ◌⊎◌, inl, inr, refl, sym, ap, ◌∙◌, arith, Bool,
  true, false, Option, none, some, ltb, Bool-cases, subst,
}
use mksd_old_archive.Arch.Ports.{Log}
use mksd_old_archive.Arch.Pci.{Test, scan_funcs, scan_slots, scan_buses, or_next}

abbrev pub At : Type 0
At = ℕ × ℕ × ℕ

-- A test whose answer does not depend on the accesses before it.
abbrev pub Answers : Test → (ℕ → ℕ → ℕ → Bool) → Type 0
Answers test good =
    (bus slot func : ℕ) (log : Log)
    → bus < 256
    → slot < 32
    → func < 8
    → (log' : Log) × (test bus slot func log ≡ (good bus slot func, log'))

-- The functions of the bus in the order of the search.
abbrev pub at_number : ℕ → At
at_number k = (k / 256, k / 8 % 32, k % 8)

abbrev pub good_at : (ℕ → ℕ → ℕ → Bool) → ℕ → Bool
good_at good k = good (k / 256) (k / 8 % 32) (k % 8)

-- What a search of `n` functions from number `lo` on ends with: the first good one, if any.
abbrev pub First : (ℕ → ℕ → ℕ → Bool) → ℕ → ℕ → Option At → Type 0
First good lo n found =
    ((found ≡ none) × ((k : ℕ) → lo ≤ k → k < lo + n → good_at good k ≡ false))
    ⊎ ((k : ℕ) × (lo ≤ k)
        × (k < lo + n)
        × (good_at good k ≡ true)
        × ((j : ℕ) → lo ≤ j → j < k → good_at good j ≡ false)
        × (found ≡ some (at_number k)))

First-skip :
    (good : ℕ → ℕ → ℕ → Bool) (lo n k total : ℕ) (found : Option At)
    → total ≡ n + k
    → ((j : ℕ) → lo ≤ j → j < lo + n → good_at good j ≡ false)
    → First good (lo + n) k found
    → First good lo total found
First-skip good lo n k total found sum skipped (inl (e, none_good)) = inl (
  e,
  λ j l u. elim (Bool-cases (ltb j (lo + n))) [
    | inl b ↦ skipped j l (ground arith)
    | inr b ↦ none_good j (ground arith) (omega arith)
  ],
)
First-skip good lo n k total found sum skipped (inr (i, l, u, hit, before, e)) = inr (
  i,
  omega arith,
  omega arith,
  hit,
  (λ j l' u'. elim (Bool-cases (ltb j (lo + n))) [
    | inl b ↦ skipped j l' (ground arith)
    | inr b ↦ before j (ground arith) u'
  ]),
  e,
)

or_next-First :
    (good : ℕ → ℕ → ℕ → Bool) (lo n k total : ℕ) (out : Option At × Log)
    (next : Log → Option At × Log)
    → total ≡ n + k
    → First good lo n (out.0)
    → ((log : Log) → First good (lo + n) k ((next log).0))
    → First good lo total ((or_next out next).0)
unfolding or_next
or_next-First good lo n k total (none, log) next sum (inl (e, skipped)) more =
    First-skip good lo n k total ((next log).0) sum skipped (more log)
or_next-First good lo n k total (none, log) next sum (inr (i, l, u, hit, before, e)) more =
    absurd (ground arith)
or_next-First good lo n k total (some at, log) next sum (inl (e, skipped)) more =
    absurd (ground arith)
or_next-First good lo n k total (some at, log) next sum (inr (i, l, u, hit, before, e)) more =
    inr (i, l, omega arith, hit, before, e)

abbrev number : ℕ → ℕ → ℕ → ℕ
number bus slot func = bus * 256 + slot * 8 + func

at_number-number :
    (bus slot func : ℕ)
    → slot < 32
    → func < 8
    → at_number (number bus slot func) ≡ (bus, slot, func)
at_number-number bus slot func k l =
    ap (λ (t : ℕ). (t, number bus slot func / 8 % 32, number bus slot func % 8))
      {x = number bus slot func / 256} {y = bus} (omega arith)
    ∙ ap (λ (t : ℕ). (bus, t, number bus slot func % 8)) {x = number bus slot func / 8 % 32}
        {y = slot} (omega arith)
    ∙ ap (λ (t : ℕ). (bus, slot, t)) {x = number bus slot func % 8} {y = func} (omega arith)

good_at-number :
    (good : ℕ → ℕ → ℕ → Bool) (bus slot func : ℕ)
    → slot < 32
    → func < 8
    → good_at good (number bus slot func) ≡ good bus slot func
good_at-number good bus slot func k l =
    ap (λ (at : At). good (at.0) (at.1) (at.2)) (at_number-number bus slot func k l)

First-cast :
    (good : ℕ → ℕ → ℕ → Bool) (lo lo' n : ℕ) (found : Option At)
    → lo ≡ lo'
    → First good lo n found
    → First good lo' n found
First-cast good lo lo' n found e first = subst (λ t. First good t n found) e first

scan_funcs-First :
    (test : Test) (good : ℕ → ℕ → ℕ → Bool) (n bus slot func : ℕ) (log : Log)
    → Answers test good
    → bus < 256
    → slot < 32
    → func + n ≤ 8
    → First good (number bus slot func) n ((scan_funcs test n bus slot func log).0)
unfolding scan_funcs
scan_funcs-First test good zero bus slot func log answers h k l =
    inl (refl, λ j lo hi. absurd (omega arith))
scan_funcs-First test good (suc n) bus slot func log answers h k l =
    let (log', run) = answers bus slot func log h k (omega arith) in
    let rest = scan_funcs-First test good n bus slot (func + 1) log' answers h k (omega arith) in
    rw run (elim (Bool-cases (good bus slot func)) [
      | inl e ↦ rw e (
          inr (
            number bus slot func,
            omega arith,
            omega arith,
            good_at-number good bus slot func k (omega arith) ∙ e,
            (λ j lo hi. absurd (omega arith)),
            ap some (sym (at_number-number bus slot func k (omega arith))),
          ))
      | inr e ↦ rw e (
          First-skip good (number bus slot func) 1 n (suc n)
            ((scan_funcs test n bus slot (func + 1) log').0) (omega arith)
            (λ j lo hi.
              ap (good_at good) {x = j} {y = number bus slot func} (omega arith)
              ∙ good_at-number good bus slot func k (omega arith)
              ∙ e)
            (First-cast good (number bus slot (func + 1)) (number bus slot func + 1) n
              ((scan_funcs test n bus slot (func + 1) log').0) (omega arith) rest))
    ])

scan_slots-First :
    (test : Test) (good : ℕ → ℕ → ℕ → Bool) (n bus slot : ℕ) (log : Log)
    → Answers test good
    → bus < 256
    → slot + n ≤ 32
    → First good (number bus slot 0) (n * 8) ((scan_slots test n bus slot log).0)
unfolding scan_slots
scan_slots-First test good zero bus slot log answers h k =
    inl (refl, λ j lo hi. absurd (omega arith))
scan_slots-First test good (suc n) bus slot log answers h k =
    or_next-First good (number bus slot 0) 8 (n * 8) (suc n * 8) (scan_funcs test 8 bus slot 0 log)
      (scan_slots test n bus (slot + 1)) (omega arith)
      (scan_funcs-First test good 8 bus slot 0 log answers h (omega arith) (omega arith))
      (λ log'.
        First-cast good (number bus (slot + 1) 0) (number bus slot 0 + 8) (n * 8)
          ((scan_slots test n bus (slot + 1) log').0) (omega arith)
          (scan_slots-First test good n bus (slot + 1) log' answers h (omega arith)))

pub scan_buses-First :
    (test : Test) (good : ℕ → ℕ → ℕ → Bool) (n bus : ℕ) (log : Log)
    → Answers test good
    → bus + n ≤ 256
    → First good (number bus 0 0) (n * 256) ((scan_buses test n bus log).0)
unfolding scan_buses
scan_buses-First test good zero bus log answers h = inl (refl, λ j lo hi. absurd (omega arith))
scan_buses-First test good (suc n) bus log answers h =
    or_next-First good (number bus 0 0) 256 (n * 256) (suc n * 256) (scan_slots test 32 bus 0 log)
      (scan_buses test n (bus + 1)) (omega arith)
      (scan_slots-First test good 32 bus 0 log answers (omega arith) (omega arith))
      (λ log'.
        First-cast good (number (bus + 1) 0 0) (number bus 0 0 + 256) (n * 256)
          ((scan_buses test n (bus + 1) log').0) (omega arith)
          (scan_buses-First test good n (bus + 1) log' answers (omega arith)))
