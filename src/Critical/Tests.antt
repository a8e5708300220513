-- ===== src/Critical/Tests.antt =====
-- The theorems on critical sections and on the cache at inputs that meet their hypotheses.
use ampi.Base.{ℕ, ◌≡◌, refl, arith, true, false, some, List, [], ◌∷◌, inl}
use ampi.Critical.{Core}
use ampi.Critical.Nesting.{Program, done, section}
use ampi.Critical.Cache.{clean_range, clean_loop, Covers, clean_range-Covers}

abbrev outside : Core
outside = record { level = 0; were_enabled = false; interrupts = true }

abbrev within : Core
within = record { level = 3; were_enabled = true; interrupts = false }

-- Two sections in a section, then another one.
abbrev nested : Program
nested = section (section done (section done done)) (section done done)

-- 40 bytes from 60 on lie in the lines at 32, 64 and 96.
three_lines : clean_range 9 32 60 40 ≡ some (60 ∷ 92 ∷ 124 ∷ [])
unfolding clean_range clean_loop
three_lines = refl

clean_range-Covers_example : (xs : List ℕ) × (clean_range 9 32 60 40 ≡ some xs) × Covers 32 xs 60 40
clean_range-Covers_example = clean_range-Covers 9 32 60 40 (inl refl) (omega arith) (omega arith)
