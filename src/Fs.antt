-- ===== src/Fs.antt =====
-- sys/src/fs/vfs.c and devfs.c: the virtual file system. Paths and names are C strings in memory; a
-- node is at the address of its block, and NULL is 0. The blocks that kmalloc returns are arguments.

pub mod Names
pub mod Path
pub mod Open
pub mod Devices
pub mod Maps
pub mod Block
pub mod Superblock
pub mod Ext2
pub mod Drive
mod Tests
use mksd_old_archive.Base.{
  ℕ, zero, suc, ◌+◌, ◌-◌, ◌^◌, bit_and, Bool, true, false, not, ◌&&◌, Option, none, some, List,
  ◌==◌, if◌then◌else◌, u64, sub64, ltb, Memory,
}
use mksd_old_archive.Base.Outcome.{Outcome, ◌>>=◌}
use mksd_old_archive.Text.{strlen, strcmp, strdilm_count, strsplit}
use mksd_old_archive.Net.{bytes_of}

-- What the files use of lib/hashmap.h: hashmap_create, hashmap_put and hashmap_get. A key is the
-- bytes that it has at the call, a value is a pointer, and 0 says that there is none. hashmap.h keeps
-- the address of a key that is put: what `get` says is meant while these bytes stay there.
pub record HashMap : Type 1 where
  pub Map : Type 0
  pub create : Map
  pub put : List ℕ → ℕ → Map → Map
  pub get : List ℕ → Map → ℕ

-- `vfs_node_t`
pub record Node (H : HashMap) : Type 0 where
  pub name : Memory
  pub children : H.Map
  pub n_children : ℕ
  pub flags : ℕ
  pub fops : ℕ

-- `FILE`
pub record File : Type 0 where
  pub node : ℕ
  pub flags : ℕ

-- `root` is g_rootfs and `devfs` the variable of devfs.c.
pub record Vfs (H : HashMap) : Type 0 where
  pub nodes : ℕ → Node H
  pub files : ℕ → File
  pub root : ℕ
  pub devfs : ℕ
  pub memory : Memory

-- A call of Text: none is a string whose NUL lies behind its fuel.
abbrev pub or_waits {ℓ} : {A : Type ℓ} → Option A → Outcome A
or_waits none = Outcome.waits
or_waits (some a) = Outcome.done a

abbrev pub slash : ℕ
slash = 0x2F

abbrev pub file_flag_dir : ℕ
file_flag_dir = 1

-- A round of the loop of `vfs_path_to_node`. `split` is the block of this round's `strsplit`, which
-- returns NULL where the path has no such part.
unfoldable pub next_node :
    (H : HashMap) → ℕ → ℕ → ℕ → ℕ → ℕ → (ℕ → Node H) → Memory → Outcome (ℕ × Memory)
next_node H fuel split path i last_node nodes m =
    or_waits (strsplit fuel split m path slash i) >>= (λ (found, m'). elim found [
      | none ↦ Outcome.undefined
      | some part ↦ or_waits (strlen fuel m' part) >>= (λ len.
          if last_node == 0
          then Outcome.undefined
          else Outcome.done (H.get (bytes_of len m' part) (nodes last_node).children, m'))
    ])

-- The loop from round `i` with `n` rounds left; `split i` is the block of round `i`.
unfoldable pub walk :
    (H : HashMap) → ℕ → (ℕ → ℕ) → ℕ → ℕ → ℕ → ℕ → (ℕ → Node H) → Memory → Outcome (ℕ × Memory)
walk H fuel split path zero i last_node nodes m = Outcome.done (last_node, m)
walk H fuel split path (suc n) i last_node nodes m =
    next_node H fuel (split i) path i last_node nodes m
    >>= (λ (node, m'). walk H fuel split path n (i + 1) node nodes m')

-- What `vfs_path_to_node` returns for the node behind the last part.
unfoldable pub checked_node : (H : HashMap) → Bool → ℕ → Vfs H → Outcome ℕ
checked_node H should_be_dir last_node s =
    if last_node == s.root
    then Outcome.done 0
    else if should_be_dir
    then (if last_node == 0
        then Outcome.undefined
        else if bit_and (s.nodes last_node).flags file_flag_dir == 0
        then Outcome.done 0
        else Outcome.done last_node)
    else Outcome.done last_node

-- `vfs_path_to_node` behind the first byte of the path, which is a slash.
unfoldable pub walk_path : (H : HashMap) → ℕ → (ℕ → ℕ) → ℕ → Vfs H → Outcome (ℕ × Vfs H)
walk_path H fuel split p s = or_waits (strdilm_count fuel s.memory p slash) >>= (λ dilm_count.
    or_waits (strlen fuel s.memory p) >>= (λ len.
      let should_be_dir = s.memory (sub64 (p + len) 1) == slash in
      let rounds = if should_be_dir then dilm_count else u64 (dilm_count + 1) in
      walk H fuel split p rounds 0 s.root s.nodes s.memory >>= (λ (last_node, m').
        checked_node H should_be_dir last_node s
        >>= (λ node. Outcome.done (node, record s { memory = m' })))))

unfoldable pub vfs_path_to_node : (H : HashMap) → ℕ → (ℕ → ℕ) → ℕ → Vfs H → Outcome (ℕ × Vfs H)
vfs_path_to_node H fuel split path s =
    if s.memory path == slash then walk_path H fuel split (path + 1) s else Outcome.done (0, s)

abbrev pub set_node : {H : HashMap} → ℕ → Node H → Vfs H → Vfs H
set_node at node s = record s { nodes = λ a. if a == at then node else s.nodes a }

-- `at` is the block for the node, and `name` the address of its name. The result is `*node_out`.
unfoldable pub vfs_make_node : (H : HashMap) → ℕ → ℕ → ℕ → ℕ → ℕ → ℕ → Vfs H → Outcome (Vfs H)
vfs_make_node H fuel at name parent flags fops s = or_waits (strlen fuel s.memory name) >>= (λ len.
    let new_node : Node H = record {
      name = λ i. if ltb i len then s.memory (name + i) else (s.nodes at).name i;
      children = H.create;
      n_children = 0;
      flags = flags;
      fops = fops;
    } in
    let s₁ = set_node at new_node s in
    Outcome.done (
      if parent == 0
      then s₁
      else let p = s₁.nodes parent in
        set_node parent
          (record p {
            children = H.put (bytes_of len s.memory name) at p.children;
            n_children = u64 (p.n_children + 1);
          })
          s₁))

-- `read` is the address of the literal "r", and `fp` the block for the FILE. A call through the
-- `fops` of a node goes to a function that does nothing, or, where they are NULL, nowhere.
unfoldable pub fopen : (H : HashMap) → ℕ → (ℕ → ℕ) → ℕ → ℕ → ℕ → ℕ → Vfs H → Outcome (ℕ × Vfs H)
fopen H fuel split read fp path mode s = or_waits (strcmp fuel s.memory mode read) >>= (λ r.
    if r == 0
    then vfs_path_to_node H fuel split path s >>= (λ (node, s').
      if node == 0
      then Outcome.done (0, s')
      else if (s'.nodes node).fops == 0
      then Outcome.undefined
      else Outcome.done (
        fp,
        record s' {
          files = λ a. if a == fp then (record { node = node; flags = 1 }) else s'.files a;
        },
      ))
    else Outcome.done (0, s))

unfoldable pub fclose : (H : HashMap) → ℕ → Vfs H → Outcome (Vfs H)
fclose H fp s =
    if fp == 0
    then Outcome.undefined
    else if (s.nodes (s.files fp).node).fops == 0
    then Outcome.undefined
    else Outcome.done s

-- `empty` is the address of the literal "".
unfoldable pub vfs_init : (H : HashMap) → ℕ → ℕ → ℕ → Vfs H → Outcome (Vfs H)
vfs_init H fuel at empty s =
    vfs_make_node H fuel at empty 0 file_flag_dir 0 s
    >>= (λ s'. Outcome.done (record s' { root = at }))

unfoldable pub devfs_register_device : (H : HashMap) → ℕ → ℕ → ℕ → ℕ → Vfs H → Outcome (Vfs H)
devfs_register_device H fuel at id fops s = vfs_make_node H fuel at id s.devfs 0 fops s

-- `dev` is the address of the literal "dev".
unfoldable pub devfs_init : (H : HashMap) → ℕ → ℕ → ℕ → Vfs H → Outcome (Vfs H)
devfs_init H fuel at dev s =
    vfs_make_node H fuel at dev s.root 0 0 s >>= (λ s'. Outcome.done (record s' { devfs = at }))
