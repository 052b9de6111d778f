-- ===== src/Fs/Exfat/Directory.antt =====
-- `Exfat::finddir`: the entries of a directory, and the table of nodes that were found before.
use amazing_os.Base.{
  ℕ, zero, suc, ◌+◌, ◌*◌, ◌/◌, ◌%◌, ◌^◌, Bool, true, false, ◌&&◌, ◌||◌, not, ◌==◌, leb, ltb, Option,
  none, some, if◌then◌else◌, List, [], ◌∷◌, ◌++◌, length, take, get_elem?,
}
use amazing_os.Base.Memory.{Memory}
use amazing_os.Fs.CString.{CString}
use amazing_os.Fs.Tarfs.Init.{skip_slashes}
use amazing_os.Fs.Exfat.{Ahci, Volume, ExfatFileInfo, u32, is_end, next_cluster, sector_of, load_32}

-- What the entries of one file have said so far.
pub record EntrySet : Type 0 where
  pub active : Bool
  pub attributes : ℕ
  pub first_cluster : ℕ
  pub flags : ℕ
  pub data_length : ℕ
  pub file_name : List ℕ

abbrev pub no_entry : EntrySet
no_entry = record {
  active = false;
  attributes = 0;
  first_cluster = 0;
  flags = 0;
  data_length = 0;
  file_name = [];
}

abbrev pub load_16 : Memory → ℕ → ℕ
load_16 m a = m a + m (a + 1) * 2 ^ 8

abbrev pub load_64 : Memory → ℕ → ℕ
load_64 m a = load_32 m a + load_32 m (a + 4) * 2 ^ 32

-- At most 15 characters, of which the low byte is kept; the buffer takes 254.
pub append_name : (n : ℕ) → Memory → (place : ℕ) → List ℕ → List ℕ
append_name zero m place name = name
append_name (suc n) m place name =
    let c = load_16 m place in
    let rest =
      append_name n m (place + 2)
        (if ltb (length name) 254 then name ++ (c % 2 ^ 8 ∷ []) else name) in
    if c == 0 then name else rest

-- Two buffers as C strings, each of which ends at its first 0.
pub same_string : List ℕ → List ℕ → Bool
same_string [] [] = true
same_string [] (b ∷ bs) = b == 0
same_string (a ∷ as_) [] = a == 0
same_string (a ∷ as_) (b ∷ bs) =
    let rest = same_string as_ bs in
    if a == 0 || b == 0 then a == b else if a == b then rest else false

-- The three kinds of entry of a file, at `place` of the cluster.
abbrev pub file_directory_entry : Memory → (place : ℕ) → EntrySet → EntrySet
file_directory_entry m place e = record e {
  attributes = load_16 m (place + 4);
  active = true;
  file_name = [];
}

abbrev pub stream_entry : Memory → (place : ℕ) → EntrySet → EntrySet
stream_entry m place e = record e {
  flags = m (place + 1);
  first_cluster = load_32 m (place + 20);
  data_length = load_64 m (place + 24);
}

unfoldable pub name_entry : Memory → (place : ℕ) → EntrySet → EntrySet
unfolding append_name
name_entry m place e = record e { file_name = append_name 15 m (place + 2) e.file_name }

-- The entries of a cluster from `place` on, up to a match of the name or the end of the directory.
pub scan_entries :
    (n : ℕ) → Memory → (place : ℕ) → (component : CString) → EntrySet → EntrySet × Bool
unfolding name_entry same_string
scan_entries zero m place component e = (e, false)
scan_entries (suc n) m place component e =
    let t = m place in
    elim (t == 0) [
      | true ↦ (e, false)
      | false ↦ elim (t == 0x85) [
        | true ↦ scan_entries n m (place + 32) component (file_directory_entry m place e)
        | false ↦ elim (t == 0xC0 && e.active) [
          | true ↦ scan_entries n m (place + 32) component (stream_entry m place e)
          | false ↦ elim (t == 0xC1 && e.active) [
            | true ↦
                let named = name_entry m place e in
                elim (same_string named.file_name component) [
                  | true ↦ (named, true)
                  | false ↦ scan_entries n m (place + 32) component named
                ]
            | false ↦
                scan_entries n m (place + 32) component
                  (if t / 2 ^ 7 % 2 == 0 then record e { active = false } else e)
          ]
        ]
      ]
    ]

-- A node that was found, with the data behind it.
pub record ExfatNode : Type 0 where
  pub name : CString
  pub is_directory : Bool
  pub size : ℕ
  pub info : ExfatFileInfo

-- "disk".
abbrev pub exfat_root_node : Volume → ExfatNode
exfat_root_node v = record {
  name = 0x64 ∷ 0x69 ∷ 0x73 ∷ 0x6B ∷ [];
  is_directory = true;
  size = 0;
  info = record { first_cluster = v.root_dir_cluster; flags = 1; size = 0 };
}

abbrev pub max_exfat_nodes : ℕ
max_exfat_nodes = 64

-- A node of the same name and type, whatever the directory that it was found in.
pub find_loaded : CString → (is_directory : Bool) → List ExfatNode → (n : ℕ) → Option ℕ
unfolding same_string
find_loaded name is_directory [] n = none
find_loaded name is_directory (x ∷ xs) n =
    let rest = find_loaded name is_directory xs (n + 1) in
    let same_type = if is_directory then x.is_directory else not x.is_directory in
    if same_type && same_string x.name name then some n else rest

abbrev pub node_of : EntrySet → ExfatNode
node_of e = record {
  name = take 127 e.file_name;
  is_directory = e.attributes / 16 % 2 == 1;
  size = e.data_length;
  info = record { first_cluster = e.first_cluster; flags = e.flags; size = e.data_length };
}

abbrev pub load_node : EntrySet → List ExfatNode → Option ℕ × List ExfatNode
unfolding find_loaded
load_node e nodes = elim (find_loaded e.file_name (e.attributes / 16 % 2 == 1) nodes 0) [
  | some n ↦ (some n, nodes)
  | none ↦
      if leb max_exfat_nodes (length nodes)
      then (none, nodes)
      else (some (length nodes), nodes ++ (node_of e ∷ []))
]

-- The first component of a path, and what follows its slashes. The source has a buffer of 128 bytes
-- for the component, which a longer one overruns.
pub component_of : CString → CString
component_of [] = []
component_of (c ∷ cs) = let rest = component_of cs in if c == 0x2F then [] else c ∷ rest

pub remainder_of : CString → CString
unfolding skip_slashes
remainder_of [] = []
remainder_of (c ∷ cs) = let rest = remainder_of cs in if c == 0x2F then skip_slashes cs else rest

module _ {D : Type 0} (ahci : Ahci D) (v : Volume) (d : D) where
  -- The clusters of a directory. A walk of more than 2 ^ 32 steps comes back to a cluster, and the
  -- source then goes on for ever.
  pub find_entry :
      (fuel : ℕ) → (component : CString) → (flags cluster : ℕ) → EntrySet → Option EntrySet
  unfolding scan_entries next_cluster
  find_entry zero component flags cluster e = none
  find_entry (suc fuel) component flags cluster e = elim (is_end cluster) [
    | true ↦ none
    | false ↦ elim (ahci.read_sectors (sector_of ahci v cluster) v.sectors_per_cluster d) [
      | none ↦ none
      | some cluster_buf ↦
          let (e1, hit) = scan_entries ((v.cluster_size + 31) / 32) cluster_buf 0 component e in
          elim hit [
            | true ↦ some e1
            | false ↦ find_entry fuel component flags (next_cluster ahci v flags cluster d) e1
          ]
    ]
  ]

  -- A node is the root, `none`, or one of the table. Each step takes a component off the path.
  pub exfat_finddir :
      (fuel : ℕ)
      → (directory : ExfatNode) → (path : CString) → List ExfatNode
      → Option ℕ × List ExfatNode
  unfolding find_entry load_node component_of remainder_of
  exfat_finddir zero directory path nodes = (none, nodes)
  exfat_finddir (suc fuel) directory path nodes = elim directory.is_directory [
    | false ↦ (none, nodes)
    | true ↦
        elim (find_entry u32 (take 127 (component_of path)) directory.info.flags
          directory.info.first_cluster no_entry) [
            | none ↦ (none, nodes)
            | some e ↦
                let (found, nodes1) = load_node e nodes in
                elim found [
                  | none ↦ (none, nodes1)
                  | some n ↦ elim (remainder_of path) [
                    | [] ↦ (some n, nodes1)
                    | c ∷ rest ↦ elim (get_elem? nodes1 n) [
                      | none ↦ (none, nodes1)
                      | some node ↦ exfat_finddir fuel node (c ∷ rest) nodes1
                    ]
                  ]
                ]
          ]
  ]
