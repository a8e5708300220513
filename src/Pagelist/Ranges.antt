-- ===== src/Pagelist/Ranges.antt =====
-- What `create_pagelist` of ampi/vc4/vchiq/vchiq_2835_arm.c makes of a buffer: pages that are those of the
-- buffer, and ranges of the cache that cover it.
use ampi.Base.{
  ℕ, zero, suc, ◌+◌, ◌-◌, ◌*◌, ◌/◌, ◌%◌, ◌≤◌, ◌<◌, ◌≡◌, ◌∙◌, refl, sym, ap, inl, inr, ltb, List, [],
  ◌∷◌, ◌++◌, length, arith, Bool-cases, some,
}
use ampi.Base.Words.{word, add32, bit_and_mask}
use ampi.Pagelist.{
  Pagelist, pagelist_header, page_size, page_offset, page_of, num_pages, map_pages, arm_addresses,
  gpu_mem_base, runs, create_pagelist,
}
use ampi.Pagelist.Runs.{ArePages, no_pages, page, consecutive, expand, expand-runs}

-- The ranges follow each other, from `start` on, and have `n` bytes together.
abbrev pub Covers : ℕ → ℕ → List (ℕ × ℕ) → Type 0
Covers start n [] = n ≡ 0
Covers start n ((address, bytes) ∷ ranges) =
    (address ≡ start) × (bytes ≤ n) × Covers (start + bytes) (n - bytes) ranges

page_offset_lem : (buf : ℕ) → page_offset buf ≡ buf % page_size
unfolding page_offset
page_offset_lem buf = bit_and_mask 12 buf

page_of_lem : (a : ℕ) → page_of a ≡ a - a % page_size
unfolding page_of
page_of_lem a = ap (λ x. a - x) (page_offset_lem a)

-- The ranges of the pages cover the bytes, if there are as many pages as these are on.
map_pages-Covers :
    (n address length off start : ℕ)
    → off < page_size
    → start ≡ address - address % page_size + off
    → start + length < word
    → length + off ≤ n * page_size
    → n * page_size < length + off + page_size
    → Covers start length (map_pages n address length off).1
unfolding map_pages
map_pages-Covers zero address length off start o e w h u = omega (arith, h)
map_pages-Covers (suc n) address length off start o e w h u =
    let here : add32 (page_of address) off ≡ start =
      ap (λ x. add32 x off) (page_of_lem address) ∙ omega (arith, e, w, o) in
    elim (Bool-cases (ltb length (page_size - off))) [
      | inl y ↦
          let last : n ≡ 0 = ground (arith, y, u) in rw (y, last) (here, omega arith, omega arith)
      | inr f ↦
          let room : page_size - off ≤ length = ground (arith, f) in
          let aligned : start + (page_size - off)
              ≡ add32 address page_size - add32 address page_size % page_size + 0 =
            omega (arith, e, w, room, o) in
          rw (f) (
            here,
            room,
            map_pages-Covers n (add32 address page_size) (length - (page_size - off)) 0
                (start + (page_size - off)) (omega arith) aligned (omega (arith, w, room))
                (omega (arith, h, room, o)) (omega (arith, u, room, o)),
          )
    ]

-- The pages are consecutive.
map_pages-consecutive :
    (n address length off : ℕ)
    → address < word
    → (map_pages n address length off).0 ≡ consecutive n (page_of address)
unfolding map_pages consecutive
map_pages-consecutive zero address length off l = refl
map_pages-consecutive (suc n) address length off l =
    let b = add32 address page_size in
    let next : page_of b ≡ add32 (page_of address) page_size =
      page_of_lem b ∙ omega (arith, l) ∙ ap (λ x. add32 x page_size) (sym (page_of_lem address)) in
    let small : b < word = omega arith in
    ap (λ x. page_of address ∷ x)
      (map_pages-consecutive n b _ 0 small ∙ ap (λ x. consecutive n x) next)

arm_addresses-ArePages :
    (n address : ℕ) → address % page_size ≡ 0 → ArePages (arm_addresses (consecutive n address))
unfolding arm_addresses consecutive
arm_addresses-ArePages zero address a = no_pages
arm_addresses-ArePages (suc n) address a =
    page (add32 address gpu_mem_base) _ (omega (arith, a)) (omega arith)
      (arm_addresses-ArePages n (add32 address page_size) (omega (arith, a)))

runs-arm :
    (stale n address : ℕ)
    → 0 < n
    → address % page_size ≡ 0
    → let addrs = arm_addresses (consecutive n address) in expand (runs stale addrs) ≡ addrs
unfolding arm_addresses consecutive
runs-arm stale zero address h a = absurd (omega (arith, h))
runs-arm stale (suc n) address h a =
    (expand-runs stale (add32 address gpu_mem_base) _ (arm_addresses-ArePages (suc n) address a)).0

-- What is promised of the list of pages of a buffer: it names the buffer, its entries stand for the pages
-- of the buffer as the other side addresses them, each once and in their order, and the ranges of the
-- cache that are cleaned are those of the buffer, and then the list itself.
pub record Describes (allocated buf count type : ℕ) (list : Pagelist) (ranges : List (ℕ × ℕ))
    : Type 0 where
  pub bytes : (list.length ≡ count) × (list.offset ≡ buf % page_size) × (list.type ≡ type)
  pub pages :
      expand list.addrs
      ≡ arm_addresses (
          consecutive
            ((count + buf % page_size + page_size - 1) / page_size)
            (buf - buf % page_size))
  pub cleaned :
      (parts : List (ℕ × ℕ)) × (ranges
        ≡ parts
          ++ ((
            allocated,
            pagelist_header + (count + buf % page_size + page_size - 1) / page_size * 4,
          )
              ∷ []))
      × Covers buf count parts

-- `create_pagelist` describes the buffer, and cleans the cache for the buffer and for the list, if there is memory for the list, for each buffer that does not
-- reach the last page of the address space, and is not empty at the start of a page.
pub create_pagelist_lem :
    (stale allocated buf count type : ℕ)
    → buf + count + page_size ≤ word
    → 0 < count + buf % page_size
    → (list : Pagelist) × (ranges : List (ℕ × ℕ)) × (create_pagelist stale
          (some allocated)
          buf
          count
          type
        ≡ (some list, ranges))
      × Describes allocated buf count type list ranges
unfolding create_pagelist num_pages
create_pagelist_lem stale allocated buf count type h nonempty =
    let off = page_offset buf in
    let n = num_pages buf count in
    let n' = (count + buf % page_size + page_size - 1) / page_size in
    let mapped = map_pages n buf count off in
    let same : n ≡ n' =
      ap (λ x. (count + x + page_size - 1) % word / page_size) (page_offset_lem buf)
      ∙ omega (arith, h) in
    let list : Pagelist = record {
      length = count;
      type = type;
      offset = off;
      addrs = runs (add32 stale gpu_mem_base) (arm_addresses mapped.0);
    } in
    let start : ℕ = buf - buf % page_size in
    let consec : mapped.0 ≡ consecutive n' start =
      map_pages-consecutive n buf count off (omega (arith, h))
      ∙ ap (λ x. consecutive x (page_of buf)) same
      ∙ ap (λ x. consecutive n' x) (page_of_lem buf) in
    (
      list,
      mapped.1 ++ ((allocated, pagelist_header + n * 4) ∷ []),
      refl,
      record {
        bytes = (refl, page_offset_lem buf, refl);
        pages =
            ap (λ x. expand (runs (add32 stale gpu_mem_base) (arm_addresses x))) consec
            ∙ runs-arm _ n' start (omega (arith, nonempty)) (omega arith);
        cleaned = (
          mapped.1,
          ap (λ x. mapped.1 ++ ((allocated, pagelist_header + x * 4) ∷ [])) same,
          map_pages-Covers n buf count off buf (omega (arith, page_offset_lem buf))
              (omega (arith, page_offset_lem buf)) (omega (arith, h))
              (omega (arith, page_offset_lem buf, same)) (omega (arith, page_offset_lem buf, same)),
        );
      },
    )
