-- ===== src/Syscall/Files/Tests.antt =====
-- Page tables that map the first two pages for the user, and a thread with its first descriptor in use.
use amazing_os.Base.{
  ◌+◌, ◌≡◌, refl, none, some, true, [], ◌∷◌, arith, ◌==◌, if◌then◌else◌, replicate, min, length,
}
use amazing_os.Pmm.{Pmm}
use amazing_os.Vmm.{vmm_is_user_mapped}
use amazing_os.Fs.Node.{NodeRef, exfat_node, root_node, File}
use amazing_os.Fs.Vfs.{open_path}
use amazing_os.Fs.Vfs.Tests.{volume, world, on_disk, on_disk-found}
use amazing_os.Syscall.{syscall_validate_buffer, page_loop}
use amazing_os.Syscall.Validate.{syscall_validate_buffer-mapped, syscall_validate_buffer_wraps}
use amazing_os.Syscall.Files.{
  Descriptors, closed_file, free_descriptor, free_slot, install, open_result, file_of, sys_open,
  sys_close, fork_descriptors,
}
use amazing_os.Syscall.Files.Table.{IsDescriptors}
use amazing_os.Syscall.Files.Calls.{sys_close-sys_open, fork_descriptors-file_of}

abbrev two_pages : Pmm
two_pages = record {
  free_list_head = 0;
  free_frames_count = 0;
  modules = [];
  words = λ a.
      if a == 0x1000
      then 0x2007
      else if a == 0x2000
      then 0x3007
      else if a == 0x3000
      then 0x4007
      else if a == 0x4000
      then 0x5007
      else if a == 0x4008
      then 0x6007
      else 0;
}

accepted : syscall_validate_buffer 0x1000 4000 200 two_pages ≡ true
unfolding syscall_validate_buffer page_loop vmm_is_user_mapped
accepted = refl

syscall_validate_buffer-mapped_example : vmm_is_user_mapped 0x1000 (4000 + 150) two_pages ≡ true
syscall_validate_buffer-mapped_example =
    syscall_validate_buffer-mapped two_pages 0x1000 4000 200 150 (omega arith) accepted
      (omega arith)

syscall_validate_buffer_wraps_example :
    syscall_validate_buffer 0x1000 0xFFFF800000000000 0x800000000000 two_pages ≡ true
syscall_validate_buffer_wraps_example =
    syscall_validate_buffer_wraps two_pages 0x1000 0xFFFF800000000000 0x800000000000 (omega arith)
      (omega arith)

abbrev first_file : File
first_file = record { node = some root_node; offset = 3; flags = 0; ref_count = 1 }

abbrev thread : Descriptors
thread = record {
  fd_pool = first_file ∷ replicate 15 closed_file;
  fd_table = some 0 ∷ replicate 15 none;
}

thread-IsDescriptors : IsDescriptors thread
thread-IsDescriptors = record {
  in_step = (
    (refl, refl),
    (
      refl,
      (
        refl,
        (
          refl,
          (
            refl,
            (
              refl,
              (refl, (refl, (refl, (refl, (refl, (refl, (refl, (refl, (refl, (refl, tt)))))))))),
            ),
          ),
        ),
      ),
    ),
  );
  size = refl;
}

abbrev disk_file : File
disk_file = record { node = some (exfat_node 0); offset = 0; flags = 0; ref_count = 1 }

abbrev thread_after : Descriptors
thread_after = record {
  fd_pool = first_file ∷ disk_file ∷ replicate 14 closed_file;
  fd_table = some 0 ∷ some 1 ∷ replicate 14 none;
}

path_accepted : syscall_validate_buffer 0x1000 16 (min 256 (length on_disk)) two_pages ≡ true
unfolding syscall_validate_buffer page_loop vmm_is_user_mapped
path_accepted = refl

opens : sys_open volume 0x1000 16 on_disk 0 two_pages world thread ≡ (1, thread_after, world)
unfolding sys_open open_result install free_descriptor free_slot
opens = rw (path_accepted, on_disk-found) refl

sys_close-sys_open_example :
    (file_of thread 1 ≡ none)
    × ((node : NodeRef) × (open_path volume (some on_disk) world ≡ (some node, world))
        × (file_of thread_after 1
            ≡ some (record { node = some node; offset = 0; flags = 0; ref_count = 1 })))
    × (file_of thread_after 0 ≡ file_of thread 0)
    × ((sys_close 1 thread_after).0 ≡ 0)
    × ((sys_close 1 thread_after).1.fd_table ≡ thread.fd_table)
sys_close-sys_open_example =
    sys_close-sys_open volume 0x1000 16 on_disk 0 two_pages world thread 1 0 thread_after world
      thread-IsDescriptors (omega arith) (λ e. absurd (omega (arith, e))) opens

fork_descriptors-file_of_example :
    (file_of (fork_descriptors thread) 0 ≡ file_of thread 0)
    × IsDescriptors (fork_descriptors thread)
fork_descriptors-file_of_example = fork_descriptors-file_of thread 0 thread-IsDescriptors
