-- ===== src/Fs/Open.antt =====
-- fopen of vfs.c, and the nodes that vfs.c and devfs.c make at boot.
use mksd_old_archive.Base.{
  ℕ, ◌^◌, ◌<◌, ◌≡◌, ◌≢◌, ◌⊎◌, inl, inr, refl, arith, Bool-cases, List, [], ◌∷◌, length, ◌==◌,
  if◌then◌else◌, Memory, IsString,
}
use mksd_old_archive.Base.Outcome.{Outcome, ◌>>=◌}
use mksd_old_archive.Text.Compare.{strcmp-IsString}
use mksd_old_archive.Fs.{HashMap, Vfs, fopen}
use mksd_old_archive.Fs.Names.{names}
use mksd_old_archive.Fs.Path.{resolve, IsPath, unless_root, with_memory, vfs_path_to_node-resolve}

-- What `fopen` makes of a node.
abbrev pub opened : {H : HashMap} → ℕ → Vfs H → Memory → ℕ → Outcome (ℕ × Vfs H)
opened fp v m' node =
    if node == 0
    then Outcome.done (0, record v { memory = m' })
    else if (v.nodes node).fops == 0
    then Outcome.undefined
    else Outcome.done (
      fp,
      record v {
        memory = m';
        files = λ a. if a == fp then (record { node = node; flags = 1 }) else v.files a;
      },
    )

opens : (H : HashMap) → ℕ → ℕ × Vfs H → Outcome (ℕ × Vfs H)
opens H fp (node, v) = opened fp v v.memory node

with_memory-opened :
    (H : HashMap) (fp : ℕ) (v : Vfs H) (m' : Memory) (o : Outcome ℕ)
    → (o >>= (λ node. with_memory v m' (unless_root v node))) >>= opens H fp
      ≡ o >>= (λ node. opened fp v m' (unless_root v node))
unfolding opens
with_memory-opened H fp v m' (Outcome.done node) = refl
with_memory-opened H fp v m' Outcome.undefined = refl
with_memory-opened H fp v m' Outcome.waits = refl

-- Every branch of `fopen` for such a path as `IsPath` describes, which starts with a slash and does
-- not end with one, and a mode shorter than 4 GB: a mode other than "r" gives NULL; else the names in
-- the path are looked up, and where they lead to NULL or to the root the result is NULL; a call goes
-- through the NULL operations of a node that has none, and any other node is opened.
pub fopen-resolve :
    (H : HashMap) (fuel : ℕ) (split : ℕ → ℕ) (read fp path mode : ℕ) (s t : List ℕ) (v : Vfs H)
    → IsPath fuel split path s v
    → IsString v.memory read (b'r' ∷ [])
    → IsString v.memory mode t
    → length t < fuel
    → length t < 2 ^ 32
    → ((t ≢ b'r' ∷ []) × (fopen H fuel split read fp path mode v ≡ Outcome.done (0, v)))
      ⊎ ((t ≡ b'r' ∷ [])
          × (m' : Memory) × (fopen H fuel split read fp path mode v
              ≡ resolve H v.nodes (names s) v.root
                >>= (λ node. opened fp v m' (unless_root v node))))
unfolding fopen opens
fopen-resolve H fuel split read fp path mode s t v h literal asked l small =
    let (r, run, iff, _) =
      strcmp-IsString fuel v.memory mode read t (b'r' ∷ []) asked literal l
        (omega (arith, h.fuelled, h.nonempty)) small (omega arith) in
    let (m', found) = vfs_path_to_node-resolve H fuel split path s v h in
    elim (Bool-cases (r == 0)) [
      | inl e ↦ inr (
        iff.0 (ground arith),
        m',
        rw (run, e, found) (with_memory-opened H fp v m' (resolve H v.nodes (names s) v.root)),
      )
      | inr e ↦ inl ((λ same. absurd (ground (arith, iff.1 same))), rw (run, e) refl)
    ]
