-- ===== src/Drivers/Ahci/Drives.antt =====
-- The names under which ahci.c registers drives, and what is left of them.
use mksd_old_archive.Base.{
  ℕ, zero, suc, ◌^◌, ◌≤◌, ◌<◌, ◌≡◌, ◌≢◌, refl, ap, ◌∙◌, arith, true, false, List, [], ◌∷◌, ◌++◌,
  append-nil, ◌==◌, ltb, length, IsString, IsString-ext, memzero, memzero_lem, ◌+◌,
}
use mksd_old_archive.Base.Outcome.{Outcome}
use mksd_old_archive.Text.Number.Decimal.{IsDecimal}
use mksd_old_archive.Text.Snprintf.{Print, snprintf}
use mksd_old_archive.Text.Snprintf.Format.{
  Piece, format, Prints, width, IsDecimal-length, digit_bound_range,
}
use mksd_old_archive.Text.Snprintf.Prints.{Apart, snprintf-Prints}
use mksd_old_archive.Fs.{HashMap, Node, Vfs, devfs_register_device}
use mksd_old_archive.Fs.Devices.{IsNew, linked, vfs_make_node-linked}
use mksd_old_archive.Drivers.Ahci.Init.{Context, System, clear_id, register_drive}

-- "sda", and the format "sda%d" for a number.
abbrev pub sda : List ℕ
sda = b's' ∷ b'd' ∷ b'a' ∷ []

abbrev pub sda_pieces : ℕ → List Piece
sda_pieces k = Piece.char b's' ∷ Piece.char b'd' ∷ Piece.char b'a' ∷ Piece.number k ∷ []

-- The name of drive `k`.
abbrev pub IsName : ℕ → List ℕ → Type 0
IsName zero w = w ≡ sda
IsName (suc k) w = (d : List ℕ) × IsDecimal (suc k) d × (w ≡ sda ++ d)

Prints-IsName : (k : ℕ) (w : List ℕ) → Prints (sda_pieces (suc k)) w → IsName (suc k) w
Prints-IsName k w (a, e, (b, f, (c, g, (d, rest, decimal, h, i)))) = (d, decimal, cc (append-nil d))

IsName-length : (k : ℕ) (w : List ℕ) → k < 2 ^ 64 → IsName k w → length w ≤ 23
IsName-length zero w l e = rw e (omega arith)
IsName-length (suc k) w l (d, decimal, e) =
    rw e (omega (arith, IsDecimal-length (suc k) d l decimal, digit_bound_range (suc k)))

-- The literals, the buffer for the name, and the blocks of the nodes of the drives.
pub record Ready (H : HashMap) (c : Context) (s : System H) : Type 0 where
  pub fuel : 30 ≤ c.text_fuel
  pub literal : IsString s.vfs.memory c.sda sda
  pub format_literal : IsString s.vfs.memory c.sda_format (format (sda_pieces 0))
  pub apart : Apart c.drive_id 23 c.sda_format 5
  pub literal_apart : Apart c.drive_id 23 c.sda 3
  pub mounted : s.vfs.devfs ≢ 0
  pub new_node : (k : ℕ) → c.node k ≢ s.vfs.devfs

-- The address of the key under which drive `k` is put into /dev, and what stands there once
-- init_ports has cleared the buffer.
abbrev pub key : Context → ℕ → ℕ
key c zero = c.sda
key c (suc k) = c.drive_id

abbrev pub left : ℕ → List ℕ
left zero = sda
left (suc k) = []

-- A drive in /dev, before and after the buffer is cleared.
pub record Registered (H : HashMap) (c : Context) (k : ℕ) (w : List ℕ) (s s' : System H)
    : Type 0 where
  pub held : IsString s'.vfs.memory (key c k) w
  pub children :
      (s'.vfs.nodes s.vfs.devfs).children ≡ H.put w (c.node k) (s.vfs.nodes s.vfs.devfs).children
  pub name : (i : ℕ) → i < length w → (s'.vfs.nodes (c.node k)).name i ≡ s'.vfs.memory (key c k + i)
  pub operations : (s'.vfs.nodes (c.node k)).fops ≡ c.fops
  pub cleared : IsString (clear_id c.drive_id s').vfs.memory (key c k) (left k)

-- The parts of a drive in /dev that its node makes.
linked-Registered :
    (H : HashMap) (c : Context) (k : ℕ) (w : List ℕ) (s s' : System H) (node : Node H)
    → c.node k ≢ s.vfs.devfs
    → IsNew H 0 c.fops node
    → ((i : ℕ) → i < length w → node.name i ≡ s'.vfs.memory (key c k + i))
    → s'.vfs.nodes ≡ (linked H (c.node k) w s.vfs.devfs node s.vfs).nodes
    → IsString s'.vfs.memory (key c k) w
    → IsString (clear_id c.drive_id s').vfs.memory (key c k) (left k)
    → Registered H c k w s s'
linked-Registered H c k w s s' node ne new name e held cleared =
    let dev = s.vfs.devfs in
    let v = linked H (c.node k) w dev node s.vfs in
    let put : (v.nodes dev).children ≡ H.put w (c.node k) (s.vfs.nodes dev).children =
      ground arith in
    let at_node : v.nodes (c.node k) ≡ node = ground arith in
    record {
      held = held;
      children = ap (λ (f : ℕ → Node H). (f dev).children) e ∙ put;
      name = λ i l.
          ap (λ (f : ℕ → Node H). (f (c.node k)).name i) e
          ∙ ap (λ (x : Node H). x.name i) at_node
          ∙ name i l;
      operations =
          ap (λ (f : ℕ → Node H). (f (c.node k)).fops) e
          ∙ ap (λ (x : Node H). x.fops) at_node
          ∙ new.has_fops;
      cleared = cleared;
    }

register_first :
    (H : HashMap) (c : Context) (s : System H)
    → Ready H c s
    → (s' : System H) × (register_drive H c 0 s ≡ Outcome.done s') × Registered H c 0 sda s s'
unfolding register_drive devfs_register_device
register_first H c s ready =
    let (node, new, name, e) =
      vfs_make_node-linked H c.text_fuel (c.node 0) c.sda s.vfs.devfs 0 c.fops sda s.vfs
        ready.mounted ready.literal (omega (arith, ready.fuel)) in
    let v = linked H (c.node 0) sda s.vfs.devfs node s.vfs in
    let same =
      IsString-ext s.vfs.memory (memzero c.drive_id 23 s.vfs.memory) c.sda sda
        (λ a l u. memzero_lem 23 c.drive_id s.vfs.memory a ∙ ground (arith, ready.literal_apart))
        ready.literal in
    (
      record s { vfs = v },
      rw (register_drive, e) refl,
      linked-Registered H c 0 sda s (record s { vfs = v }) node (ready.new_node 0) new name refl
          ready.literal same,
    )

register_named :
    (H : HashMap) (c : Context) (k : ℕ) (s : System H) (p : Print) (v : Vfs H)
    → snprintf c.text_fuel c.drive_id 23 c.sda_format (suc k ∷ []) s.dec_string s.vfs.memory
      ≡ Outcome.done p
    → devfs_register_device H c.text_fuel
        (c.node (suc k))
        c.drive_id
        c.fops
        (record s.vfs { memory = p.memory })
      ≡ Outcome.done v
    → register_drive H c (suc k) s ≡ Outcome.done (record s { vfs = v; dec_string = p.dec_string })
unfolding register_drive
register_named H c k s p v run e =
    let more : suc k == 0 ≡ false = ground arith in rw (register_drive, more, run, e) refl

register_next :
    (H : HashMap) (c : Context) (k : ℕ) (s : System H)
    → Ready H c s
    → suc k < 100
    → (s' : System H) × (w : List ℕ) × (register_drive H c (suc k) s ≡ Outcome.done s')
      × IsName (suc k) w
      × Registered H c (suc k) w s s'
unfolding devfs_register_device
register_next H c k s ready small =
    let ps = sda_pieces (suc k) in
    let two : ltb (suc k) 100 ≡ true = ground arith in
    let fits : width ps < 23 = rw two (omega arith) in
    let (p, w, run, string, prints, kept) =
      snprintf-Prints ps c.text_fuel c.drive_id 23 c.sda_format s.dec_string s.vfs.memory
        (omega arith) (omega (arith, ready.fuel)) (omega arith) fits ready.format_literal
        ready.apart in
    let is_name = Prints-IsName k w prints in
    let named : Vfs H = record s.vfs { memory = p.memory } in
    let (node, new, name, e) =
      vfs_make_node-linked H c.text_fuel (c.node (suc k)) c.drive_id named.devfs 0 c.fops w named
        ready.mounted string
        (omega (arith, ready.fuel, IsName-length (suc k) w (omega arith) is_name)) in
    let v = linked H (c.node (suc k)) w named.devfs node named in
    let s' : System H = record s { vfs = v; dec_string = p.dec_string } in
    let nothing : memzero c.drive_id 23 p.memory c.drive_id ≡ 0 =
      memzero_lem 23 c.drive_id p.memory c.drive_id ∙ ground arith in
    (
      s',
      w,
      register_named H c k s p v run e,
      is_name,
      linked-Registered H c (suc k) w s s' node (ready.new_node (suc k)) new name refl string
          nothing,
    )

-- Where the literals lie in memory, apart from the buffer for the name, and /dev is there, in a block
-- of its own: for each of the first hundred drives the name is made, "sda" for the first and "sda"
-- with its number in decimal for each other. The name stands in the new node, which has the
-- operations of the driver, and the node is put into /dev under the name, once and with nothing
-- else. The key of the first drive is still "sda" when init_ports has cleared its buffer, but at the
-- address of the key of each other drive there is then the empty string.
pub register_drive-Registered :
    (H : HashMap) (c : Context) (k : ℕ) (s : System H)
    → Ready H c s
    → k < 100
    → (s' : System H) × (w : List ℕ) × (register_drive H c k s ≡ Outcome.done s')
      × IsName k w
      × Registered H c k w s s'
register_drive-Registered H c zero s ready l =
    let (s', run, registered) = register_first H c s ready in (s', sda, run, refl, registered)
register_drive-Registered H c (suc k) s ready l = register_next H c k s ready l
