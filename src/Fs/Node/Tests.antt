-- ===== src/Fs/Node/Tests.antt =====
-- Reads and writes of a small file at address 100.
use amazing_os.Base.{ℕ, ◌+◌, ◌%◌, ◌<◌, ◌≡◌, refl, inr, some, none, [], ◌∷◌, arith}
use amazing_os.Base.Memory.{Memory}
use amazing_os.Fs.Node.{VfsNode, file, ram, ram_read, ram_write}
use amazing_os.Fs.Node.Access.{ram_read-ram_write}

abbrev notes : VfsNode
notes = record {
  name = b'n' ∷ [];
  type = file;
  size = 10;
  capacity = 64;
  contents = some 100;
  read = some ram;
  write = some ram;
  finddir = none;
  readdir = none;
}

abbrev ascending : Memory
ascending a = a % 256

ram_read-ram_write_example :
    let (written, node', m') = ram_write notes 8 (some 500) 5 ascending in
    let (got, m2) = ram_read node' 8 (some 700) 5 m' in
    (written ≡ 5) × (got ≡ 5) × ((i : ℕ) → i < 5 → m2 (700 + i) ≡ ascending (500 + i))
ram_read-ram_write_example =
    ram_read-ram_write notes 8 500 700 5 100 ascending refl (omega arith) (omega arith)
      (omega arith) (inr (omega arith)) (inr (omega arith))
