-- ===== src/Fs/Devices.antt =====
-- The nodes that vfs.c and devfs.c make at boot, and those of the devices.
use mksd_old_archive.Base.{
  ℕ, ◌+◌, ◌<◌, ◌≡◌, ◌≢◌, refl, arith, false, List, [], ◌∷◌, length, ◌==◌, if◌then◌else◌, Memory,
  IsString, Holds, u64, ltb,
}
use mksd_old_archive.Base.Outcome.{Outcome, ◌>>=◌}
use mksd_old_archive.Text.Compare.{strlen-IsString}
use mksd_old_archive.Net.Frame.{bytes_of-Holds}
use mksd_old_archive.Fs.{
  HashMap, Node, Vfs, vfs_make_node, set_node, vfs_init, devfs_init, devfs_register_device,
}

-- What hashmap.h promises: a new map is empty, and a key has the value that was put under it last. It
-- promises so only as long as the memory of each key in the map is as it was when the key was put.
pub record IsHashMap (H : HashMap) : Type 0 where
  pub get-create : (k : List ℕ) → H.get k H.create ≡ 0
  pub get-put : (k : List ℕ) (v : ℕ) (m : H.Map) → H.get k (H.put k v m) ≡ v
  pub get-put_ne : (k l : List ℕ) (v : ℕ) (m : H.Map) → k ≢ l → H.get k (H.put l v m) ≡ H.get k m

IsString-to_Holds : (m : Memory) (p : ℕ) (w : List ℕ) → IsString m p w → Holds m p w
IsString-to_Holds m p [] h = tt
IsString-to_Holds m p (c ∷ w) (e, _, h) = (e, IsString-to_Holds m (p + 1) w h)

-- The node `at` in a directory `parent`, under the name `w`.
abbrev pub linked : (H : HashMap) → ℕ → List ℕ → ℕ → Node H → Vfs H → Vfs H
linked H at w parent node v =
    let v₁ = set_node at node v in
    let p = v₁.nodes parent in
    set_node parent
      (record p { children = H.put w at p.children; n_children = u64 (p.n_children + 1) }) v₁

-- A new node has the flags and the operations that it is given, and no children.
pub record IsNew (H : HashMap) (flags fops : ℕ) (node : Node H) : Type 0 where
  pub children : node.children ≡ H.create
  pub n_children : node.n_children ≡ 0
  pub has_flags : node.flags ≡ flags
  pub has_fops : node.fops ≡ fops

-- The state after `vfs_make_node`, with and without a parent.
abbrev made : (H : HashMap) → ℕ → List ℕ → ℕ → Node H → Vfs H → Vfs H
made H at w parent node v = if parent == 0 then set_node at node v else linked H at w parent node v

vfs_make_node-made :
    (H : HashMap) (fuel at name parent flags fops : ℕ) (w : List ℕ) (v : Vfs H)
    → IsString v.memory name w
    → length w < fuel
    → (node : Node H) × IsNew H flags fops node
      × ((i : ℕ) → i < length w → node.name i ≡ v.memory (name + i))
      × (vfs_make_node H fuel at name parent flags fops v
          ≡ Outcome.done (made H at w parent node v))
unfolding vfs_make_node
vfs_make_node-made H fuel at name parent flags fops w v str l = (
  record {
    name = λ i. if ltb i (length w) then v.memory (name + i) else (v.nodes at).name i;
    children = H.create;
    n_children = 0;
    flags = flags;
    fops = fops;
  },
  record { children = refl; n_children = refl; has_flags = refl; has_fops = refl },
  λ i l. ground arith,
  rw
      (
        strlen-IsString fuel v.memory name w str l,
        bytes_of-Holds w v.memory name (IsString-to_Holds v.memory name w str),
      )
      refl,
)

pub vfs_make_node-linked :
    (H : HashMap) (fuel at name parent flags fops : ℕ) (w : List ℕ) (v : Vfs H)
    → parent ≢ 0
    → IsString v.memory name w
    → length w < fuel
    → (node : Node H) × IsNew H flags fops node
      × ((i : ℕ) → i < length w → node.name i ≡ v.memory (name + i))
      × (vfs_make_node H fuel at name parent flags fops v
          ≡ Outcome.done (linked H at w parent node v))
vfs_make_node-linked H fuel at name parent flags fops w v ne str l =
    let (node, new, named, e) = vfs_make_node-made H fuel at name parent flags fops w v str l in
    let known : parent == 0 ≡ false = ground arith in (node, new, named, rw known at e)

-- The root, /dev in it, and a device in that.
abbrev tree : (H : HashMap) → ℕ → ℕ → ℕ → List ℕ → List ℕ → Node H → Node H → Node H → Vfs H → Vfs H
tree H r d n dir w node₁ node₂ node₃ v =
    let v₁ : Vfs H = record (set_node r node₁ v) { root = r } in
    let v₂ : Vfs H = record (linked H d dir r node₂ v₁) { devfs = d } in linked H n w d node₃ v₂

-- The start of the file systems as init.c has it, then the registration of one device: the blocks
-- of the three nodes are `r`, `d` and `n`.
unfoldable pub started : (H : HashMap) → ℕ → ℕ → ℕ → ℕ → ℕ → ℕ → ℕ → ℕ → Vfs H → Outcome (Vfs H)
started H fuel empty dev id fops r d n v =
    vfs_init H fuel r empty v >>= devfs_init H fuel d dev >>= devfs_register_device H fuel n id fops

abbrev pub dev_name : List ℕ
dev_name = b'd' ∷ b'e' ∷ b'v' ∷ []

-- The literals lie in memory, and the blocks of the nodes are three different ones.
pub record Bootable {H : HashMap} (fuel empty dev id r d n : ℕ) (w : List ℕ) (v : Vfs H)
    : Type 0 where
  pub empty_literal : IsString v.memory empty []
  pub dev_literal : IsString v.memory dev dev_name
  pub id_literal : IsString v.memory id w
  pub fuelled : length w + 3 < fuel
  pub blocks : (r ≢ 0) × (d ≢ 0) × (n ≢ 0) × (r ≢ d) × (r ≢ n) × (d ≢ n)
