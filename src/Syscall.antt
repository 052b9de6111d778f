-- ===== src/Syscall.antt =====
-- Kernel/CrecentKernel/src/kernel/syscall.cpp: the check of a user's buffer. Addresses and sizes have
-- 64 bits; `pml4` is the active one.
pub mod Validate
pub mod Files
use amazing_os.Base.{ℕ, zero, suc, ◌+◌, ◌-◌, ◌*◌, ◌/◌, ◌%◌, ◌^◌, Bool, true, false, if◌then◌else◌}
use amazing_os.Pmm.{Pmm}
use amazing_os.Vmm.{vmm_is_user_mapped}

-- `a & ~0xFFF`.
abbrev pub page_down : ℕ → ℕ
page_down a = a / 4096 * 4096

-- `for (page = …; page < end_page; page += 4096)`, with `left` pages to go.
pub page_loop : (pml4 left page : ℕ) → Pmm → Bool
page_loop pml4 zero page s = true
page_loop pml4 (suc left) page s =
    let rest = page_loop pml4 left ((page + 4096) % 2 ^ 64) s in
    if vmm_is_user_mapped pml4 page s then rest else false

pub syscall_validate_buffer : (pml4 ptr size : ℕ) → Pmm → Bool
syscall_validate_buffer pml4 ptr size s =
    let end = (ptr + size) % 2 ^ 64 in
    let start_page = page_down ptr in
    let end_page = page_down ((end + 4095) % 2 ^ 64) in
    page_loop pml4 ((end_page - start_page) / 4096) start_page s
