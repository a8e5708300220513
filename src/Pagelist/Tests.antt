-- ===== src/Pagelist/Tests.antt =====
-- The list of pages of a buffer, and the theorems at inputs that meet their hypotheses.
use ampi.Base.{ℕ, ◌≡◌, refl, arith, some, List, [], ◌∷◌}
use ampi.Pagelist.{
  Pagelist, page_offset, page_of, num_pages, map_pages, group_pages, runs, arm_addresses,
  create_pagelist,
}
use ampi.Pagelist.Runs.{Apart, ArePages, no_pages, page, expand, expand-runs}
use ampi.Pagelist.Ranges.{Describes, create_pagelist_lem}

-- Three pages in a row, one apart, and one more
abbrev pages : List ℕ
pages = 0x40003000 ∷ 0x40004000 ∷ 0x40005000 ∷ 0x40008000 ∷ 0x40009000 ∷ []

two_runs : runs 7 pages ≡ 0x40003002 ∷ 0x40008001 ∷ []
unfolding runs group_pages
two_runs = refl

pages-ArePages : ArePages pages
pages-ArePages = page 0x40003000 _ refl (omega arith) (
    page 0x40004000 _ refl (omega arith) (
      page 0x40005000 _ refl (omega arith)
        (page 0x40008000 _ refl (omega arith) (page 0x40009000 [] refl (omega arith) no_pages))))

expand-runs_example : (expand (runs 7 pages) ≡ pages) × Apart (runs 7 pages)
expand-runs_example =
    expand-runs 7 0x40003000 (0x40004000 ∷ 0x40005000 ∷ 0x40008000 ∷ 0x40009000 ∷ []) pages-ArePages

-- 5000 bytes from the middle of a page on are in two pages.
abbrev list : Pagelist
list = record { length = 5000; type = 1; offset = 0x800; addrs = 0x40123001 ∷ [] }

two_pages :
    create_pagelist 7 (some 0x500000) 0x123800 5000 1
    ≡ (some list, (0x123800, 2048) ∷ (0x124000, 2952) ∷ (0x500000, 16) ∷ [])
unfolding create_pagelist num_pages page_offset map_pages page_of arm_addresses runs group_pages
two_pages = refl

create_pagelist_lem_example :
    (l : Pagelist) × (ranges : List (ℕ × ℕ)) × (create_pagelist 7 (some 0x500000) 0x123800 5000 1
      ≡ (some l, ranges))
    × Describes 0x500000 0x123800 5000 1 l ranges
create_pagelist_lem_example =
    create_pagelist_lem 7 0x500000 0x123800 5000 1 (omega arith) (omega arith)

-- An empty buffer at the start of a page has no pages; its one entry is made of what the memory behind the
-- list holds.
no_pages_stale : create_pagelist 7 (some 0x500000) 0x123000 0 1 ≡ (
  some (record { length = 0; type = 1; offset = 0; addrs = 0x40000007 ∷ [] }),
  (0x500000, 8) ∷ [],
)
unfolding create_pagelist num_pages page_offset map_pages page_of arm_addresses runs group_pages
no_pages_stale = refl
