-- ===== src/Pagelist.antt =====
-- ampi/vc4/vchiq/vchiq_2835_arm.c as it is built for Circle: the list of pages that describes a buffer to
-- the other side, the bulk transfers that have one, and the doorbell.
pub mod Runs
pub mod Ranges
mod Tests
use ampi.Base.{
  ℕ, zero, suc, ◌+◌, ◌-◌, ◌*◌, ◌/◌, ◌%◌, Bool, true, false, not, ◌==◌, ltb, ◌&&◌, ◌||◌,
  if◌then◌else◌, Option, none, some, List, [], ◌∷◌, ◌++◌,
}
use Prim.Native.Nat.{bit_and}
use ampi.Base.Words.{word, add32}
use ampi.Slots.Send.{Status, success, error}
use ampi.Bulk.{Bulk, Direction, transmit, receive}

-- `PAGE_SIZE`
abbrev pub page_size : ℕ
page_size = 4096

-- `PAGELIST_WRITE` and `PAGELIST_READ`
abbrev pub pagelist_type : Direction → ℕ
pagelist_type transmit = 0
pagelist_type receive = 1

-- `PAGELIST_T`, with the entries of `addrs` that are written
pub record Pagelist : Type 0 where
  pub length : ℕ
  pub type : ℕ
  pub offset : ℕ
  pub addrs : List ℕ

-- `(unsigned int)(uintptr_t)buf & (PAGE_SIZE - 1)`
unfoldable pub page_offset : ℕ → ℕ
page_offset buf = bit_and buf (page_size - 1)

-- `vmalloc_to_page` and `page_address`: the page in which an address is
unfoldable pub page_of : ℕ → ℕ
page_of address = address - page_offset address

-- The number of pages of a buffer, in `unsigned int`
unfoldable pub num_pages : ℕ → ℕ → ℕ
num_pages buf count = (count + page_offset buf + page_size - 1) % word / page_size

-- The loop over the pages, `n` of them from `address` on: the pages, and the ranges of the cache that are
-- cleaned, each with its start and its bytes.
unfoldable pub map_pages : ℕ → ℕ → ℕ → ℕ → List ℕ × List (ℕ × ℕ)
map_pages zero address length off = ([], [])
map_pages (suc n) address length off =
    let pg = page_of address in
    let bytes = if ltb length (page_size - off) then length else page_size - off in
    let (pages, ranges) = map_pages n (add32 address page_size) (length - bytes) 0 in
    (pg ∷ pages, (add32 pg off, bytes) ∷ ranges)

-- The loop that groups pages at consecutive addresses: the entries from the run on that starts at
-- `base_addr`, has `run` more pages, and would be followed by `next_addr`.
unfoldable pub group_pages : ℕ → ℕ → ℕ → List ℕ → List ℕ
group_pages base_addr next_addr run [] = add32 base_addr run ∷ []
group_pages base_addr next_addr run (addr ∷ addrs) =
    let longer = group_pages base_addr (add32 next_addr page_size) (suc run) addrs in
    let fresh = group_pages addr (add32 addr page_size) 0 addrs in
    if addr == next_addr && ltb run (page_size - 1) then longer else add32 base_addr run ∷ fresh

-- The same from the first page on, `pages[0]`. Without a page that is what the memory behind the list
-- holds, `stale`.
unfoldable pub runs : ℕ → List ℕ → List ℕ
runs stale [] = group_pages stale (add32 stale page_size) 0 []
runs stale (addr ∷ addrs) = group_pages addr (add32 addr page_size) 0 addrs

-- `GPU_MEM_BASE`, and `VCHIQ_ARM_ADDRESS` of each page
abbrev pub gpu_mem_base : ℕ
gpu_mem_base = 0x40000000

unfoldable pub arm_addresses : List ℕ → List ℕ
arm_addresses [] = []
arm_addresses (pg ∷ pages) = add32 pg gpu_mem_base ∷ arm_addresses pages

-- The bytes of `PAGELIST_T` before `addrs`
abbrev pub pagelist_header : ℕ
pagelist_header = 8

-- `create_pagelist`, with the ranges of the cache that it cleans, first those of the buffer and last the
-- list itself with room for an entry for each page. The list is at `allocated`, if there is
-- memory; otherwise the result is `-ENOMEM`, here `none`.
unfoldable pub create_pagelist : ℕ → Option ℕ → ℕ → ℕ → ℕ → Option Pagelist × List (ℕ × ℕ)
create_pagelist stale none buf count type = (none, [])
create_pagelist stale (some allocated) buf count type =
    let offset = page_offset buf in
    let n = num_pages buf count in
    let (pages, ranges) = map_pages n buf count offset in
    let list : Pagelist = record {
      length = count;
      type = type;
      offset = offset;
      addrs = runs (add32 stale gpu_mem_base) (arm_addresses pages);
    } in
    (some list, ranges ++ ((allocated, pagelist_header + n * 4) ∷ []))

-- `vchiq_prepare_bulk_data`, for a list at `allocated`: the status, the bulk, and the list
unfoldable pub prepare_bulk_data :
    ℕ → Option ℕ → ℕ → ℕ → Direction → Bulk → Status × Bulk × Option Pagelist
prepare_bulk_data stale none offset size dir b = (error, b, none)
prepare_bulk_data stale (some pagelist) offset size dir b =
    let (list, ranges) = create_pagelist stale (some pagelist) offset size (pagelist_type dir) in
    (success, record b { local_data = add32 pagelist gpu_mem_base; remote_data = pagelist }, list)

-- `vchiq_complete_bulk`: the address of the list that is freed, if one is. `free_pagelist` only frees it.
unfoldable pub complete_bulk : Option Bulk → Option ℕ
complete_bulk none = none
complete_bulk (some b) = if b.remote_data == 0 || b.actual == 0 then none else some b.remote_data

-- `vchiq_doorbell_irq`: whether the doorbell was rung, when the events are looked at by
-- `remote_event_pollall`.
unfoldable pub doorbell_irq : {S : Type 0} → ℕ → (S → S) → S → Bool × S
doorbell_irq status poll_all s = if bit_and status 0x4 == 0 then (false, s) else (true, poll_all s)
