-- ===== src/Mem/User.antt =====
-- `is_valid_user_address` of src/kernel/mem/mem.c.
use hvos.Common.{ℕ, ◌+◌, ◌^◌, ◌≤◌, ◌<◌, ◌≡◌, ◌↔◌, Bool, true, false, arith, ltb, if◌then◌else◌, u64}

abbrev pub user_space_end : ℕ
user_space_end = 0x00007FFF_FFFF_FFFF

pub is_valid_user_address : ℕ → ℕ → Bool
is_valid_user_address addr size =
    let end = u64 (addr + size) in
    if ltb end addr then false else if ltb user_space_end end then false else true

-- For 64-bit arguments the test passes exactly if the buffer ends in user space, counted without
-- wrap-around; so no overflow slips through.
pub is_valid_user_address_iff :
    (addr size : ℕ)
    → addr < 2 ^ 64
    → size < 2 ^ 64
    → (is_valid_user_address addr size ≡ true) ↔ (addr + size ≤ user_space_end)
unfolding is_valid_user_address
is_valid_user_address_iff addr size ha hs = ground arith
