-- ===== src/Pagelist/Runs.antt =====
-- The entries of a list of pages, as `create_pagelist` of ampi/vc4/vchiq/vchiq_2835_arm.c writes them and
-- as vchiq_pagelist.h explains them.
use ampi.Base.{
  ℕ, zero, suc, ◌+◌, ◌-◌, ◌*◌, ◌%◌, ◌≤◌, ◌<◌, ◌≡◌, ◌≢◌, ◌⊎◌, ◌∙◌, refl, sym, ap, subst, inl, inr,
  ◌==◌, ltb, ◌&&◌, List, [], ◌∷◌, ◌++◌, length, append_assoc, arith, Bool-cases,
}
use ampi.Base.Words.{word, add32}
use ampi.Pagelist.{page_size, group_pages, runs}

-- `n` pages at consecutive addresses
unfoldable pub consecutive : ℕ → ℕ → List ℕ
consecutive zero address = []
consecutive (suc n) address = address ∷ consecutive n (add32 address page_size)

-- The pages of the entries: the 12 lowest bits hold the number of pages that follow the first one.
unfoldable pub expand : List ℕ → List ℕ
expand [] = []
expand (entry ∷ entries) =
    let run = entry % page_size in consecutive (suc run) (entry - run) ++ expand entries

-- Each address is that of a page.
pub data ArePages : List ℕ → Type 0 where
  no_pages : ArePages []
  page : (a : ℕ) (l : List ℕ) → a % page_size ≡ 0 → a < word → ArePages l → ArePages (a ∷ l)

consecutive-last :
    (n a : ℕ)
    → a < word
    → consecutive (suc n) a ≡ consecutive n a ++ ((a + n * page_size) % word ∷ [])
unfolding consecutive
consecutive-last zero a h =
    let same : a ≡ (a + 0 * page_size) % word = omega (arith, h) in ap (λ x. x ∷ []) same
consecutive-last (suc n) a h =
    let b = add32 a page_size in
    let next : (b + n * page_size) % word ≡ (a + suc n * page_size) % word = omega arith in
    let small : b < word = omega arith in
    ap (λ l. a ∷ l) (consecutive-last n b small ∙ ap (λ x. consecutive n b ++ (x ∷ [])) next)

expand-entry :
    (base run : ℕ) (entries : List ℕ)
    → base % page_size ≡ 0
    → base < word
    → run < page_size
    → expand (add32 base run ∷ entries) ≡ consecutive (suc run) base ++ expand entries
unfolding expand
expand-entry base run entries h l r =
    let small : (base + run) % word % page_size ≡ run = omega (arith, h, l, r) in
    let first : (base + run) % word - run ≡ base = omega (arith, h, l, r) in
    ap (λ x. consecutive (suc x) ((base + run) % word - x) ++ expand entries) small
    ∙ ap (λ x. consecutive (suc run) x ++ expand entries) first

consecutive-one : (a : ℕ) → consecutive 1 a ≡ a ∷ []
unfolding consecutive
consecutive-one a = refl

-- The entries from a run on stand for its pages, and for those that are still to come.
group_pages_lem :
    (base next run : ℕ) (addrs : List ℕ)
    → base % page_size ≡ 0
    → base < word
    → run < page_size
    → next ≡ (base + suc run * page_size) % word
    → ArePages addrs
    → expand (group_pages base next run addrs) ≡ consecutive (suc run) base ++ addrs
unfolding group_pages expand
group_pages_lem base next run [] h l r e p = expand-entry base run [] h l r
group_pages_lem base next run (a ∷ addrs) h l r e (page _ _ m s p) =
    elim (Bool-cases (a == next && ltb run (page_size - 1))) [
      | inl y ↦
          let here : a ≡ next = ground (arith, y) in
          let room : suc run < page_size = ground (arith, y) in
          let far : add32 next page_size ≡ (base + suc (suc run) * page_size) % word =
            omega (arith, e) in
          rw (group_pages, y)
            (group_pages_lem base (add32 next page_size) (suc run) addrs h l room far p
              ∙ ap (λ x. x ++ addrs) (consecutive-last (suc run) base l)
              ∙ append_assoc (consecutive (suc run) base) ((base + suc run * page_size) % word ∷ [])
                  addrs
              ∙ ap (λ x. consecutive (suc run) base ++ (x ∷ addrs)) (sym e ∙ sym here))
      | inr n ↦
          let behind : add32 a page_size ≡ (a + 1 * page_size) % word = omega arith in
          rw (group_pages, n)
            (expand-entry base run _ h l r
              ∙ ap (λ x. consecutive (suc run) base ++ x)
                  (group_pages_lem a (add32 a page_size) 0 addrs m s (omega arith) behind p
                    ∙ ap (λ x. x ++ addrs) (consecutive-one a)))
    ]

-- No two neighbours could be one entry: an entry that does not have the most pages is not followed by
-- the page behind its last one.
unfoldable pub Apart : List ℕ → Type 0
Apart [] = Unit {0}
Apart (e ∷ []) = Unit {0}
Apart (e ∷ f ∷ entries) =
    let run = e % page_size in
    ((run ≡ page_size - 1) ⊎ (f - f % page_size ≢ (e - run + suc run * page_size) % word))
    × Apart (f ∷ entries)

-- Entries of which the first one starts at the page `base`
record Starts (base : ℕ) (entries : List ℕ) : Type 0 where
  run : ℕ
  others : List ℕ
  short : run < page_size
  first : entries ≡ add32 base run ∷ others
  apart : Apart entries

group_pages-Starts :
    (base next run : ℕ) (addrs : List ℕ)
    → base % page_size ≡ 0
    → base < word
    → run < page_size
    → next ≡ (base + suc run * page_size) % word
    → ArePages addrs
    → Starts base (group_pages base next run addrs)
unfolding group_pages Apart
group_pages-Starts base next run [] h l r e p = record {
  run = run;
  others = [];
  short = r;
  first = refl;
  apart = tt;
}
group_pages-Starts base next run (a ∷ addrs) h l r e (page _ _ m s p) =
    elim (Bool-cases (a == next && ltb run (page_size - 1))) [
      | inl y ↦
          let room : suc run < page_size = ground (arith, y) in
          let far : add32 next page_size ≡ (base + suc (suc run) * page_size) % word =
            omega (arith, e) in
          rw (group_pages, y)
            (group_pages-Starts base (add32 next page_size) (suc run) addrs h l room far p)
      | inr n ↦
          let behind : add32 a page_size ≡ (a + 1 * page_size) % word = omega arith in
          let fresh = group_pages-Starts a (add32 a page_size) 0 addrs m s (omega arith) behind p in
          let small : add32 base run % page_size ≡ run = omega (arith, h, l, r) in
          let start : add32 base run - run ≡ base = omega (arith, h, l, r) in
          let page_start : add32 a fresh.run - add32 a fresh.run % page_size ≡ a =
            omega (arith, m, s, fresh.short) in
          let split : (run ≡ page_size - 1) ⊎ (a ≢ next) = ground (arith, n, r) in
          rw (group_pages, n)
            (record {
              run = run;
              others = group_pages a (add32 a page_size) 0 addrs;
              short = r;
              first = refl;
              apart =
                  subst (λ x. Apart (add32 base run ∷ x)) (sym fresh.first)
                    (
                      elim split [
                        | inl full ↦ inl (small ∙ full)
                        | inr ne ↦ inr (λ same. ne (
                            sym page_start
                            ∙ same
                            ∙ ap (λ x. (add32 base run - x + suc x * page_size) % word) small
                            ∙ ap (λ x. (x + suc run * page_size) % word) start
                            ∙ sym e))
                      ],
                      subst Apart fresh.first fresh.apart,
                    );
            })
    ]

-- The entries stand for the pages that they are made of, each once and in their order, for any pages
-- with addresses of 32 bits, and no two neighbours could be one entry: an entry of less than 4096
-- pages is not followed by one that starts at the page behind it.
pub expand-runs :
    (stale : ℕ) (a : ℕ) (addrs : List ℕ)
    → ArePages (a ∷ addrs)
    → (expand (runs stale (a ∷ addrs)) ≡ a ∷ addrs) × Apart (runs stale (a ∷ addrs))
unfolding runs consecutive
expand-runs stale a addrs (page _ _ m s p) =
    let behind : add32 a page_size ≡ (a + 1 * page_size) % word = omega arith in
    (
      group_pages_lem a (add32 a page_size) 0 addrs m s (omega arith) behind p,
      (group_pages-Starts a (add32 a page_size) 0 addrs m s (omega arith) behind p).apart,
    )

-- There is an entry for each page at most, so they fit the memory that is allocated for them.
pub length-group_pages :
    (base next run : ℕ) (addrs : List ℕ)
    → length (group_pages base next run addrs) ≤ suc (length addrs)
unfolding group_pages
length-group_pages base next run [] = omega arith
length-group_pages base next run (a ∷ addrs) = ground (
  arith,
  length-group_pages base (add32 next page_size) (suc run) addrs,
  length-group_pages a (add32 a page_size) 0 addrs,
)
