-- ===== src/Fs/Path.antt =====
-- vfs_path_to_node of vfs.c looks the parts of a path up one after the other.
use mksd_old_archive.Base.{
  ℕ, zero, suc, ◌+◌, ◌^◌, ◌≤◌, ◌<◌, ◌≡◌, ◌≢◌, ◌⊎◌, inl, inr, refl, ap, ◌∙◌, arith, true, false,
  Bool-cases, Option, Option-cases, some, List, [], ◌∷◌, length, ◌==◌, if◌then◌else◌, Memory,
  Disjoint, take, IsString, IsString-ext, Holds, All, subst, u64, sub64,
}
use mksd_old_archive.Base.Outcome.{Outcome, ◌>>=◌}
use mksd_old_archive.Text.Split.{before, after, from_part, is_some, IsPart, strsplit-IsPart}
use mksd_old_archive.Text.Compare.{strlen-IsString, strdilm_count-count, count, count-le}
use mksd_old_archive.Net.Frame.{bytes_of-Holds}
use mksd_old_archive.Fs.{
  HashMap, Node, Vfs, slash, next_node, walk, walk_path, checked_node, vfs_path_to_node,
}
use mksd_old_archive.Fs.Names.{
  names, names_after, names_lem, IsString-All, All-before, Suffix, after-Suffix, from_part-suc,
  length-names,
}

-- The node behind a list of names, each in the children of the node before it.
unfoldable pub resolve : (H : HashMap) → (ℕ → Node H) → List (List ℕ) → ℕ → Outcome ℕ
resolve H nodes [] node = Outcome.done node
resolve H nodes (w ∷ ws) node =
    let rest = resolve H nodes ws (H.get w (nodes node).children) in
    if node == 0 then Outcome.undefined else rest

-- The blocks for the parts lie apart from a path of `n` bytes at `p`, and apart from one another.
pub record Blocks (split : ℕ → ℕ) (p n : ℕ) : Type 0 where
  pub from_path : (i : ℕ) → Disjoint (split i) (n + 1) p (n + 1)
  pub from_others : (i j : ℕ) → i < j → Disjoint (split i) (n + 1) (split j) (n + 1)

-- The blocks from number `i` on hold zeros.
abbrev pub Zeroed : (ℕ → ℕ) → ℕ → ℕ → Memory → Type 0
Zeroed split n i m = (j a : ℕ) → i ≤ j → a ≤ n → m (split j + a) ≡ 0

IsString-Holds :
    (m : Memory) (p : ℕ) (w : List ℕ)
    → Holds m p w
    → All (λ c. c ≢ 0) w
    → m (p + length w) ≡ 0
    → IsString m p w
IsString-Holds m p [] h ne e = ap m {x = p} {y = p + 0} (omega arith) ∙ e
IsString-Holds m p (c ∷ w) (here, h) (ne, rest) e = (
  here,
  ne,
  IsString-Holds m (p + 1) w h rest
      (ap m {x = p + 1 + length w} {y = p + suc (length w)} (omega arith) ∙ e),
)

length-before : (s : List ℕ) → length (before slash s) ≤ length s
unfolding before
length-before [] = omega arith
length-before (c ∷ s) = ground (arith, length-before s)

-- One round looks up the part that it has got to, and changes its block only.
next_node_lem :
    (H : HashMap) (fuel : ℕ) (split : ℕ → ℕ) (p i node : ℕ) (s r : List ℕ) (nodes : ℕ → Node H)
    (m : Memory)
    → IsString m p s
    → length s < fuel
    → Blocks split p (length s)
    → Zeroed split (length s) i m
    → from_part slash i s ≡ some r
    → All (λ c. c ≢ 0) r
    → length r ≤ length s
    → (m' : Memory) × (next_node H fuel (split i) p i node nodes m ≡ (
        if node == 0
        then Outcome.undefined
        else Outcome.done (H.get (before slash r) (nodes node).children, m')))
      × ((a : ℕ) → (a < split i) ⊎ (split i + length s < a) → m' a ≡ m a)
unfolding next_node
next_node_lem H fuel split p i node s r nodes m str l blocks zeroed at ne le =
    let w = before slash r in
    let (out, run, part) =
      strsplit-IsPart fuel (split i) p slash i s m str l (blocks.from_path i) in
    let (m', e, copied) = subst (λ (o : Option (List ℕ)). IsPart (split i) slash o m out) at part in
    let short = length-before r in
    let ended : m' (split i + length w) ≡ 0 = elim (Bool-cases (is_some (after slash r))) [
      | inl b ↦ ground (arith, copied.ending)
      | inr b ↦ ground (arith, copied.ending, zeroed i (length w) (omega arith) (omega arith))
    ] in
    let word = IsString-Holds m' (split i) w copied.bytes (All-before r ne) ended in
    (
      m',
      rw
          (
            run,
            e,
            strlen-IsString fuel m' (split i) w word (omega arith),
            bytes_of-Holds w m' (split i) copied.bytes,
          )
          refl,
      λ a o. copied.outside a (ground arith),
    )

abbrev at_memory : Memory → ℕ → Outcome (ℕ × Memory)
at_memory m' node = Outcome.done (node, m')

-- A walk as `resolve` has it: with the node, or without one, and some memory.
abbrev Walked : Outcome ℕ → Outcome (ℕ × Memory) → Type 0
Walked spec out = (m' : Memory) × (out ≡ (spec >>= at_memory m'))

Zeroed-suc :
    (split : ℕ → ℕ) (p n i : ℕ) (m m' : Memory)
    → Blocks split p n
    → ((a : ℕ) → (a < split i) ⊎ (split i + n < a) → m' a ≡ m a)
    → Zeroed split n i m
    → Zeroed split n (i + 1) m'
Zeroed-suc split p n i m m' blocks outside zeroed j a l u =
    outside (split j + a) (ground (arith, blocks.from_others i j (omega arith)))
    ∙ zeroed j a (omega arith) u

walk-Walked :
    (H : HashMap) (fuel : ℕ) (split : ℕ → ℕ) (p n i node : ℕ) (s r : List ℕ) (nodes : ℕ → Node H)
    (m : Memory)
    → IsString m p s
    → length s < fuel
    → Blocks split p (length s)
    → Zeroed split (length s) i m
    → from_part slash i s ≡ some r
    → All (λ c. c ≢ 0) r
    → length r ≤ length s
    → n ≤ length (names r)
    → Walked (resolve H nodes (take n (names r)) node) (walk H fuel split p n i node nodes m)
unfolding walk resolve
walk-Walked H fuel split p zero i node s r nodes m str l blocks zeroed at ne le rounds = (m, refl)
walk-Walked H fuel split p (suc n) i node s r nodes m str l blocks zeroed at ne le rounds =
    let (m', round, outside) =
      next_node_lem H fuel split p i node s r nodes m str l blocks zeroed at ne le in
    let zeroed' = Zeroed-suc split p (length s) i m m' blocks outside zeroed in
    let str' : IsString m' p s =
      IsString-ext m m' p s (λ a lo hi. outside a (ground (arith, blocks.from_path i))) str in
    let below : suc n ≤ suc (length (names_after (after slash r))) =
      omega (arith, ap length (names_lem r)) in
    rw (names_lem r, round)
      (elim (Bool-cases (node == 0)) [
        | inl e ↦ rw e (m, refl)
        | inr e ↦ rw e (elim (Option-cases (after slash r)) [
          | inl last ↦
              let finished : n ≡ 0 = omega (arith, below, ap (λ o. length (names_after o)) last) in
              rw finished (m', refl)
          | inr (t, further) ↦
              let (ne', lt) = subst (Suffix r) further (after-Suffix r ne) in
              let at' : from_part slash (i + 1) s ≡ some t =
                ap (λ (k : ℕ). from_part slash k s) {x = i + 1} {y = suc i} (omega arith)
                ∙ from_part-suc i s r at
                ∙ further in
              rw further (
                walk-Walked H fuel split p n (i + 1) (H.get (before slash r) (nodes node).children)
                  s t nodes m' str' l blocks zeroed' at' ne' (omega arith)
                  (omega (arith, below, ap (λ o. length (names_after o)) further)))
        ])
      ])

take-all : (n : ℕ) (ws : List (List ℕ)) → length ws ≤ n → take n ws ≡ ws
take-all zero [] l = refl
take-all zero (w ∷ ws) l = absurd (omega arith)
take-all (suc n) [] l = refl
take-all (suc n) (w ∷ ws) l = ap (λ t. w ∷ t) (take-all n ws (omega arith))

-- A path of a slash and the bytes `s`, the last of which is no slash, lies in memory, and the blocks
-- for its parts lie apart from it and hold zeros.
pub record IsPath {H : HashMap} (fuel : ℕ) (split : ℕ → ℕ) (path : ℕ) (s : List ℕ) (v : Vfs H)
    : Type 0 where
  pub string : IsString v.memory path (slash ∷ s)
  pub nonempty : 0 < length s
  pub no_slash : v.memory (path + length s) ≢ slash
  pub fuelled : length s + 1 < fuel
  pub below : path + length s + 1 < 2 ^ 64
  pub blocks : Blocks split (path + 1) (length s)
  pub zeroed : Zeroed split (length s) 0 v.memory

-- What `vfs_path_to_node` makes of the node behind the last part.
abbrev pub unless_root : {H : HashMap} → Vfs H → ℕ → ℕ
unless_root v node = if node == v.root then 0 else node

abbrev pub with_memory : {H : HashMap} → Vfs H → Memory → ℕ → Outcome (ℕ × Vfs H)
with_memory v m' node = Outcome.done (node, record v { memory = m' })

abbrev check : (H : HashMap) → Vfs H → ℕ × Memory → Outcome (ℕ × Vfs H)
check H v (last_node, m') = checked_node H false last_node v >>= with_memory v m'

checked-resolve :
    (H : HashMap) (v : Vfs H) (m' : Memory) (o : Outcome ℕ)
    → (o >>= at_memory m') >>= check H v ≡ o >>= (λ node. with_memory v m' (unless_root v node))
unfolding checked_node
checked-resolve H v m' (Outcome.done node) = elim (Bool-cases (node == v.root)) [
  | inl e ↦ rw e refl
  | inr e ↦ rw e refl
]
checked-resolve H v m' Outcome.undefined = refl
checked-resolve H v m' Outcome.waits = refl

-- For a path in memory that starts with a slash and does not end with one, and whose parts go to
-- blocks that hold zeros, apart from it and from one another: `vfs_path_to_node` returns the node
-- that looking up the names between the slashes one after the other leads to, from the root on, or
-- NULL for the root; where a NULL node is looked into, so it does.
pub vfs_path_to_node-resolve :
    (H : HashMap) (fuel : ℕ) (split : ℕ → ℕ) (path : ℕ) (s : List ℕ) (v : Vfs H)
    → IsPath fuel split path s v
    → (m' : Memory) × (vfs_path_to_node H fuel split path v
        ≡ (resolve H v.nodes (names s) v.root >>= (λ node. with_memory v m' (unless_root v node))))
unfolding vfs_path_to_node walk_path
vfs_path_to_node-resolve H fuel split path s v h =
    let (first, _, str) = h.string in
    let n = length s in
    let (m', e) =
      walk-Walked H fuel split (path + 1) (length (names s)) 0 v.root s s v.nodes v.memory str
        (omega (arith, h.fuelled)) h.blocks h.zeroed (unfold from_part in refl)
        (IsString-All v.memory (path + 1) s str) (omega arith) (omega arith) in
    let starts : v.memory path == slash ≡ true = ground arith in
    let counted =
      strdilm_count-count fuel v.memory (path + 1) slash s str (omega (arith, h.fuelled))
        (omega (arith, h.below)) in
    let long = strlen-IsString fuel v.memory (path + 1) s str (omega (arith, h.fuelled)) in
    let file : v.memory (sub64 (path + 1 + length s) 1) == slash ≡ false = ground (
      arith,
      h.no_slash,
      ap v.memory {x = sub64 (path + 1 + length s) 1} {y = path + length s}
          (omega (arith, h.below)),
    ) in
    let rounds : u64 (count slash s + 1) ≡ length (names s) =
      omega (arith, length-names s, count-le slash s, h.below) in
    (
      m',
      rw
          (
            starts,
            counted,
            long,
            file,
            rounds,
            e,
            take-all (length (names s)) (names s) (omega arith),
          )
          (checked-resolve H v m' (resolve H v.nodes (names s) v.root)),
    )
