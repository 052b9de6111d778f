-- ===== src/Fs/Tarfs/Tests.antt =====
-- The tar file system on an archive with one file, and on tables of two and of three nodes.
use amazing_os.Base.{
  ℕ, ◌≤◌, ◌≡◌, ◌≢◌, refl, ◌&&◌, true, List, [], ◌∷◌, some, none, arith, ◌==◌, leb, ltb,
  if◌then◌else◌, length,
}
use amazing_os.Base.Memory.{Memory}
use amazing_os.Fs.Node.{VfsNode, file, directory, tarfs}
use amazing_os.Fs.CString.{str_equal, str_len, str_starts_with, str_copy}
use amazing_os.Fs.Tarfs.{
  tarfs_finddir, tarfs_readdir, readdir_loop, listed, slash_index, any_under, ends_with_slash,
  dir_prefix, dir_entry,
}
use amazing_os.Fs.Tarfs.Init.{tarfs_init}
use amazing_os.Fs.Tarfs.Init.Fields.{octal}
use amazing_os.Fs.Tarfs.Init.Archive.{Archive, zero_block, member, tarfs_init-Archive}
use amazing_os.Fs.Tarfs.Init.Termination.{tarfs_init_total}
use amazing_os.Fs.Tarfs.Lookup.{IsTable, InTable, tarfs_finddir_again}
use amazing_os.Fs.Tarfs.Listing.Distinct.{tarfs_readdir-distinct}
use amazing_os.Fs.Tarfs.Listing.Complete.{tarfs_readdir_complete}

-- A header for the file `./a` of five bytes at address 1024, its contents, and a block of zeros.
abbrev disk : Memory
disk a =
    if a == 1024
    then b'.'
    else if a == 1025
    then b'/'
    else if a == 1026
    then b'a'
    else if leb 1148 a && ltb a 1158
    then b'0'
    else if a == 1158
    then b'5'
    else if a == 1180
    then b'0'
    else 0

abbrev a_node : VfsNode
a_node = record {
  name = b'a' ∷ [];
  type = file;
  size = 5;
  capacity = 5;
  contents = some 1536;
  read = some tarfs;
  write = none;
  finddir = none;
  readdir = none;
}

disk-Archive : Archive disk 3072 1024 (a_node ∷ [])
unfolding octal
disk-Archive =
    member (record { dotted = true; name = b'a' ∷ []; size = 5; typeflag = b'0' }) (omega arith)
      (record {
        named = (refl, (refl, (refl, (refl, tt))));
        sized = (
          refl,
          (
            refl,
            (refl, (refl, (refl, (refl, (refl, (refl, (refl, (refl, (refl, (refl, tt)))))))))),
          ),
        );
        typed = refl;
        plain = omega arith;
        no_nul = (omega arith, tt);
        short = omega arith;
        small = omega arith;
      })
      (zero_block (omega arith) refl)

tarfs_init-Archive_example : tarfs_init disk 1024 3072 ≡ some (some (a_node ∷ []))
tarfs_init-Archive_example =
    tarfs_init-Archive disk 1024 3072 (a_node ∷ []) (omega arith) (omega arith) (omega arith)
      disk-Archive

tarfs_init_total_example :
    (out : List VfsNode) × (tarfs_init disk 1024 3072 ≡ some (some out)) × (length out ≤ 128)
tarfs_init_total_example = tarfs_init_total disk 1024 3072 (omega arith) (omega arith) (omega arith)

-- `bin/sh`, whose directory is only implied, and `a`.
abbrev table : List VfsNode
table = record a_node { name = b'b' ∷ b'i' ∷ b'n' ∷ b'/' ∷ b's' ∷ b'h' ∷ [] } ∷ a_node ∷ []

table-IsTable : IsTable table
table-IsTable = record { count = omega arith; names = (omega arith, (omega arith, tt)) }

abbrev bin : List ℕ
bin = b'b' ∷ b'i' ∷ b'n' ∷ []

tarfs_finddir_again_example :
    let (found, (after, others)) = tarfs_finddir bin table [] in
    InTable bin found after
    × (others ≡ [])
    × (tarfs_finddir bin after others ≡ (found, (after, others)))
tarfs_finddir_again_example = tarfs_finddir_again bin table [] table-IsTable (omega arith)

abbrev root : VfsNode
root = record a_node { name = b't' ∷ b'a' ∷ b'r' ∷ []; type = directory }

-- `bin/sh`, `bin/ls` and `lib/c`.
abbrev two_dirs : List VfsNode
two_dirs =
    record a_node { name = b'b' ∷ b'i' ∷ b'n' ∷ b'/' ∷ b's' ∷ b'h' ∷ [] }
    ∷ record a_node { name = b'b' ∷ b'i' ∷ b'n' ∷ b'/' ∷ b'l' ∷ b's' ∷ [] }
    ∷ record a_node { name = b'l' ∷ b'i' ∷ b'b' ∷ b'/' ∷ b'c' ∷ [] }
    ∷ []

two_dirs-IsTable : IsTable two_dirs
two_dirs-IsTable = record {
  count = omega arith;
  names = (omega arith, (omega arith, (omega arith, tt)));
}

abbrev lib : List ℕ
lib = b'l' ∷ b'i' ∷ b'b' ∷ []

first_entry : tarfs_readdir root 0 two_dirs ≡ some (some (dir_entry bin))
unfolding tarfs_readdir readdir_loop listed dir_prefix slash_index any_under str_equal str_len
    str_starts_with str_copy ends_with_slash
first_entry = refl

second_entry : tarfs_readdir root 1 two_dirs ≡ some (some (dir_entry lib))
unfolding tarfs_readdir readdir_loop listed dir_prefix slash_index any_under str_equal str_len
    str_starts_with str_copy ends_with_slash
second_entry = refl

tarfs_readdir-distinct_example : (dir_entry bin).name ≢ (dir_entry lib).name
unfolding dir_entry
tarfs_readdir-distinct_example =
    tarfs_readdir-distinct root 0 1 two_dirs (dir_entry bin) (dir_entry lib) two_dirs-IsTable refl
      (omega arith) first_entry second_entry refl refl

tarfs_readdir_complete_example :
    (i : ℕ) × (e : VfsNode) × (tarfs_readdir root i two_dirs ≡ some (some e))
    × (e.name ≡ bin)
    × (e.finddir ≡ some tarfs)
unfolding dir_prefix str_equal
tarfs_readdir_complete_example =
    tarfs_readdir_complete root two_dirs 1
      (record a_node { name = b'b' ∷ b'i' ∷ b'n' ∷ b'/' ∷ b'l' ∷ b's' ∷ [] }) bin (b'l' ∷ b's' ∷ [])
      two_dirs-IsTable refl (omega arith) refl (omega arith, (omega arith, (omega arith, tt))) refl
