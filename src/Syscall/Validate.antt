-- ===== src/Syscall/Validate.antt =====
-- What `syscall_validate_buffer` of kernel/syscall.cpp promises of a buffer that it accepts.
use amazing_os.Base.{
  ℕ, zero, suc, ◌+◌, ◌-◌, ◌*◌, ◌/◌, ◌%◌, ◌^◌, ◌≤◌, ◌<◌, ◌≡◌, ap, ◌∙◌, Bool, true, false,
  if◌then◌else◌, arith,
}
use amazing_os.Pmm.{Pmm}
use amazing_os.Vmm.{vmm_is_user_mapped}
use amazing_os.Vmm.Walks.{is_user_mapped-offset}
use amazing_os.Syscall.{page_down, page_loop, syscall_validate_buffer}

module _ (s : Pmm) (pml4 : ℕ) where
  page_loop-mapped :
      (left page k : ℕ)
      → page_loop pml4 left page s ≡ true
      → page + left * 4096 < 2 ^ 64
      → k < left
      → vmm_is_user_mapped pml4 (page + k * 4096) s ≡ true
  unfolding page_loop
  page_loop-mapped zero page k ok fits lt = elim lt [ ]
  page_loop-mapped (suc left) page zero ok fits lt =
      ap (λ a. vmm_is_user_mapped pml4 a s) (omega arith)
      ∙ first (vmm_is_user_mapped pml4 page s) _ ok
    where
      first : (b r : Bool) → (if b then r else false) ≡ true → b ≡ true
      first b r h = ground arith
  page_loop-mapped (suc left) page (suc k) ok fits lt =
      ap (λ a. vmm_is_user_mapped pml4 a s) (omega arith)
      ∙ page_loop-mapped left (page + 4096) k
          (ap (λ a. page_loop pml4 left a s) (omega arith)
            ∙ later (vmm_is_user_mapped pml4 page s)
                (page_loop pml4 left ((page + 4096) % 2 ^ 64) s) ok)
          (omega arith) (omega arith)
    where
      later : (b r : Bool) → (if b then r else false) ≡ true → r ≡ true
      later b r h = ground arith

-- Where a buffer ends at least a page before 2 ^ 64, and `syscall_validate_buffer` accepts it, each
-- of its bytes is mapped as the user's by the active page tables.
pub syscall_validate_buffer-mapped :
    (s : Pmm) (pml4 ptr size i : ℕ)
    → ptr + size + 4096 ≤ 2 ^ 64
    → syscall_validate_buffer pml4 ptr size s ≡ true
    → i < size
    → vmm_is_user_mapped pml4 (ptr + i) s ≡ true
unfolding syscall_validate_buffer
syscall_validate_buffer-mapped s pml4 ptr size i fits ok lt =
    let k : ℕ = (ptr + i) / 4096 - ptr / 4096 in
    ap (λ a. vmm_is_user_mapped pml4 a s) split
    ∙ is_user_mapped-offset s pml4 (page_down (ptr + i)) ((ptr + i) % 4096) (omega arith)
        (omega arith)
    ∙ ap (λ a. vmm_is_user_mapped pml4 a s) (omega arith)
    ∙ page_loop-mapped s pml4 ((page_down ((ptr + size + 4095)) - page_down ptr) / 4096)
        (page_down ptr) k (exact ∙ ok) (omega arith) (omega arith)
  where
    split : ptr + i ≡ page_down (ptr + i) + (ptr + i) % 4096
    split = omega arith

    exact :
        page_loop pml4 ((page_down (ptr + size + 4095) - page_down ptr) / 4096) (page_down ptr) s
        ≡ page_loop pml4
            ((page_down (((ptr + size) % 2 ^ 64 + 4095) % 2 ^ 64) - page_down ptr) / 4096)
            (page_down ptr)
            s
    exact =
        ap (λ e. page_loop pml4 ((page_down e - page_down ptr) / 4096) (page_down ptr) s)
          (omega arith)

-- A buffer whose end wraps around 2 ^ 64 to an address at least a page below its start is accepted
-- whatever the page tables map.
pub syscall_validate_buffer_wraps :
    (s : Pmm) (pml4 ptr size : ℕ)
    → ptr < 2 ^ 64
    → (ptr + size) % 2 ^ 64 + 4096 ≤ ptr
    → syscall_validate_buffer pml4 ptr size s ≡ true
unfolding syscall_validate_buffer page_loop
syscall_validate_buffer_wraps s pml4 ptr size small wraps =
    let none_left : (page_down (((ptr + size) % 2 ^ 64 + 4095) % 2 ^ 64) - page_down ptr) / 4096
        ≡ 0 =
      omega arith in
    ap (λ n. page_loop pml4 n (page_down ptr) s) none_left
