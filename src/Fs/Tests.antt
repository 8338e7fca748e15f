-- ===== src/Fs/Tests.antt =====
-- A file system with one disk, and the theorems on vfs.c, devfs.c and dev.c applied there.
use mksd_old_archive.Base.{
  ℕ, ◌+◌, ◌*◌, ◌≡◌, ◌≢◌, ◌⊎◌, inl, inr, refl, arith, List, [], ◌∷◌, ltb, ◌==◌, if◌then◌else◌,
  Memory, get_or, IsString,
}
use mksd_old_archive.Base.Outcome.{Outcome, ◌>>=◌}
use mksd_old_archive.Drivers.Ahci.Command.{Hba}
use mksd_old_archive.Fs.{Node, Vfs, vfs_path_to_node, fopen}
use mksd_old_archive.Fs.Names.{names}
use mksd_old_archive.Fs.Path.{resolve, IsPath, unless_root, with_memory, vfs_path_to_node-resolve}
use mksd_old_archive.Fs.Open.{opened, fopen-resolve}
use mksd_old_archive.Fs.Devices.{dev_name}
use mksd_old_archive.Fs.Maps.{H}
use mksd_old_archive.Fs.Block.{Context, System}

-- "" at 0, "/dev/sda" at 1, "dev" at 10, "sda" at 14 and "r" at 18.
abbrev literals : List ℕ
literals =
    0 ∷ b'/' ∷ b'd' ∷ b'e' ∷ b'v' ∷ b'/' ∷ b's' ∷ b'd' ∷ b'a' ∷ 0 ∷ b'd' ∷ b'e' ∷ b'v' ∷ 0 ∷ b's'
    ∷ b'd' ∷ b'a' ∷ 0 ∷ b'r' ∷ 0 ∷ []

abbrev text : Memory
text a = if ltb a 20 then get_or literals a 0 else 0

abbrev sda_path : List ℕ
sda_path = b'd' ∷ b'e' ∷ b'v' ∷ b'/' ∷ b's' ∷ b'd' ∷ b'a' ∷ []

abbrev sda_name : List ℕ
sda_name = b's' ∷ b'd' ∷ b'a' ∷ []

abbrev no_node : Node H
no_node = record { name = λ i. 0; children = λ k. 0; n_children = 0; flags = 0; fops = 0 }

abbrev empty_vfs : Vfs H
empty_vfs = record {
  nodes = λ a. no_node;
  files = λ a. record { node = 0; flags = 0 };
  root = 0x2000;
  devfs = 0;
  memory = text;
}

abbrev child : List ℕ → ℕ → List ℕ → ℕ
child name node = H.put name node H.create

-- The root at 0x2000, /dev at 0x3000 and /dev/sda at 0x4000.
abbrev nodes : ℕ → Node H
nodes a =
    if a == 0x2000
    then record no_node { children = child dev_name 0x3000; flags = 1 }
    else if a == 0x3000
    then record no_node { children = child sda_name 0x4000 }
    else if a == 0x4000
    then record no_node { fops = 0x8000 }
    else no_node

abbrev vfs : Vfs H
vfs = record empty_vfs { nodes = nodes }

abbrev split : ℕ → ℕ
split i = 0x10000 + 0x100 * i

sda_path-IsPath : IsPath 16 split 1 sda_path vfs
sda_path-IsPath = record {
  string = (
    refl,
    omega arith,
    (
      refl,
      omega arith,
      (
        refl,
        omega arith,
        (
          refl,
          omega arith,
          (refl, omega arith, (refl, omega arith, (refl, omega arith, (refl, omega arith, refl)))),
        ),
      ),
    ),
  );
  nonempty = omega arith;
  no_slash = omega arith;
  fuelled = omega arith;
  below = omega arith;
  blocks = record { from_path = λ i. inr (omega arith); from_others = λ i j l. inl (omega arith) };
  zeroed = λ j a l u. ground arith;
}

abbrev r_name : List ℕ
r_name = b'r' ∷ []

r_at : IsString text 18 r_name
r_at = (refl, omega arith, refl)

sda_found : resolve H nodes (names sda_path) 0x2000 ≡ Outcome.done 0x4000
unfolding resolve names
sda_found = refl

sda_unknown : resolve H (λ a. no_node) (names sda_path) 0x2000 ≡ Outcome.undefined
unfolding resolve names
sda_unknown = refl

vfs_path_to_node-resolve_example :
    (m' : Memory) × (vfs_path_to_node H 16 split 1 vfs
      ≡ resolve H nodes (names sda_path) 0x2000
        >>= (λ node. with_memory vfs m' (unless_root vfs node)))
vfs_path_to_node-resolve_example =
    vfs_path_to_node-resolve H 16 split 1 sda_path vfs sda_path-IsPath

fopen-resolve_example :
    ((r_name ≢ r_name) × (fopen H 16 split 18 0x9000 1 18 vfs ≡ Outcome.done (0, vfs)))
    ⊎ ((r_name ≡ r_name)
        × (m' : Memory) × (fopen H 16 split 18 0x9000 1 18 vfs
            ≡ resolve H nodes (names sda_path) 0x2000
              >>= (λ node. opened 0x9000 vfs m' (unless_root vfs node))))
fopen-resolve_example =
    fopen-resolve H 16 split 18 0x9000 1 18 sda_path r_name vfs sda_path-IsPath r_at r_at
      (omega arith) (omega arith)

abbrev context : Context
context = record {
  read = 18;
  nvme = 0;
  sda = 1;
  split = split;
  fp = 0x9000;
  text_fuel = 16;
  disk_fuel = 8;
  disk = λ log a. 0;
  higher_half = 0;
}

abbrev hba : Hba
hba = record { main_drive = 0x100; n_cmdslots = 4; memory = λ a. 0; log = [] }

abbrev system : System H
system = record { vfs = vfs; hba = hba }

-- /dev is there, and there is no disk in it.
abbrev no_disk : Vfs H
no_disk = record vfs {
  nodes = λ a.
      if a == 0x2000
      then record no_node { children = child dev_name 0x3000; flags = 1 }
      else no_node;
}

no_disk-IsPath : IsPath 16 split 1 sda_path no_disk
no_disk-IsPath = record {
  string = sda_path-IsPath.string;
  nonempty = omega arith;
  no_slash = omega arith;
  fuelled = omega arith;
  below = omega arith;
  blocks = sda_path-IsPath.blocks;
  zeroed = sda_path-IsPath.zeroed;
}

no_disk_found : resolve H no_disk.nodes (names sda_path) 0x2000 ≡ Outcome.done 0
unfolding resolve names
no_disk_found = refl
