-- ===== src/Fs/Drive.antt =====
-- block_read_drive and block_write_drive of dev.c, with and without a disk.
use mksd_old_archive.Base.{
  ℕ, ◌≡◌, ◌≢◌, inl, inr, refl, arith, true, false, List, [], ◌∷◌, ◌==◌, if◌then◌else◌, Memory,
  IsString,
}
use mksd_old_archive.Base.Outcome.{Outcome, ◌>>=◌}
use mksd_old_archive.Drivers.Ahci.Command.{ahci_read_drive, ahci_write_drive}
use mksd_old_archive.Fs.{HashMap, Vfs, or_waits, fclose}
use mksd_old_archive.Fs.Names.{names}
use mksd_old_archive.Fs.Path.{resolve, IsPath, unless_root}
use mksd_old_archive.Fs.Open.{opened, fopen-resolve}
use mksd_old_archive.Fs.Block.{
  Context, System, with_hba, open_device, read_device, write_device, block_read_drive,
  block_write_drive,
}

-- The path of the disk is the bytes `s` behind a slash, and the mode is the literal "r".
pub record Asks {H : HashMap} (c : Context) (s : List ℕ) (v : Vfs H) : Type 0 where
  pub path : IsPath c.text_fuel c.split c.sda s v
  pub mode : IsString v.memory c.read (b'r' ∷ [])

fopen-Asks :
    (H : HashMap) (c : Context) (s : List ℕ) (v : Vfs H)
    → Asks c s v
    → (m' : Memory) × (open_device H c 1 v
        ≡ resolve H v.nodes (names s) v.root >>= (λ node. opened c.fp v m' (unless_root v node)))
unfolding open_device
fopen-Asks H c s v asks =
    elim (fopen-resolve H c.text_fuel c.split c.read c.fp c.sda c.read s (b'r' ∷ []) v asks.path
      asks.mode asks.mode (omega (arith, asks.path.fuelled, asks.path.nonempty)) (omega arith)) [
        | inl (ne, _) ↦ absurd (ne refl)
        | inr (_, m', e) ↦ (m', e)
      ]

-- Where the path of the disk is such a path as `IsPath` describes and leads to no node:
-- `block_read_drive` returns 1 and gives the disk no command, and `block_write_drive` closes a NULL
-- file.
pub block_drive-missing :
    (H : HashMap) (c : Context) (buf n lba : ℕ) (s : List ℕ) (w : System H)
    → Asks c s w.vfs
    → resolve H w.vfs.nodes (names s) w.vfs.root ≡ Outcome.done 0
    → ((w' : System H) × (block_read_drive H c 1 buf n lba w ≡ Outcome.done (1, w'))
        × (w'.hba ≡ w.hba))
      × (block_write_drive H c 1 buf n lba w ≡ Outcome.undefined)
unfolding block_read_drive block_write_drive fclose
block_drive-missing H c buf n lba s w asks missing =
    let v = w.vfs in
    let (m', e) = fopen-Asks H c s v asks in
    let null : unless_root v 0 ≡ 0 = ground arith in
    (
      (record w { vfs = record v { memory = m' } }, rw (e, missing, null) refl, refl),
      rw (e, missing, null) refl,
    )

-- A node that is there, is not the root, and has operations, and a block for the FILE.
pub record Openable {H : HashMap} (c : Context) (node : ℕ) (v : Vfs H) : Type 0 where
  pub present : node ≢ 0
  pub below_root : node ≢ v.root
  pub operations : (v.nodes node).fops ≢ 0
  pub block : c.fp ≢ 0

-- Where the path of the disk is such a path as `IsPath` describes and leads to a node that is not
-- the root and has operations: both functions give the disk the command, and return 0 once it is
-- done, whatever the disk driver returns.
pub block_drive-present :
    (H : HashMap) (c : Context) (buf n lba node : ℕ) (s : List ℕ) (w : System H)
    → Asks c s w.vfs
    → resolve H w.vfs.nodes (names s) w.vfs.root ≡ Outcome.done node
    → Openable c node w.vfs
    → (v : Vfs H) × (block_read_drive H c 1 buf n lba w
        ≡ or_waits (ahci_read_drive c.disk c.disk_fuel c.higher_half lba buf n w.hba)
          >>= with_hba (record w { vfs = v }))
      × (block_write_drive H c 1 buf n lba w
          ≡ or_waits (ahci_write_drive c.disk c.disk_fuel c.higher_half lba buf n w.hba)
            >>= with_hba (record w { vfs = v }))
unfolding block_read_drive block_write_drive fclose read_device write_device
block_drive-present H c buf n lba node s w asks found ok =
    let v = w.vfs in
    let (m', e) = fopen-Asks H c s v asks in
    let at : unless_root v node ≡ node = ground (arith, ok.below_root) in
    let there : node == 0 ≡ false = ground (arith, ok.present) in
    let ops : (v.nodes node).fops == 0 ≡ false = ground (arith, ok.operations) in
    let file : c.fp == 0 ≡ false = ground (arith, ok.block) in
    let self : c.fp == c.fp ≡ true = ground arith in
    let v' : Vfs H = record v {
      memory = m';
      files = λ a. if a == c.fp then (record { node = node; flags = 1 }) else v.files a;
    } in
    (
      v',
      rw (e, found, at, there, ops, file, self, ops) refl,
      rw (e, found, at, there, ops, file, self, ops) refl,
    )
