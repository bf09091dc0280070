-- ===== src/SizeLiterals/Laws.antt =====
-- The units are powers of one another.
use mstack_cpp.Base.{ℕ, ◌≡◌, arith}
use mstack_cpp.SizeLiterals.{kib, mib, gib, tib, pib, eib, kb, mb, gb, tb, pb, eb}

-- Each unit is 1024 times, or 1000 times, the one before it, also where the number wraps around.
pub units :
    (x : ℕ)
    → ((mib x ≡ kib (kib x))
        × (gib x ≡ kib (mib x))
        × (tib x ≡ kib (gib x))
        × (pib x ≡ kib (tib x))
        × (eib x ≡ kib (pib x)))
      × ((mb x ≡ kb (kb x))
          × (gb x ≡ kb (mb x))
          × (tb x ≡ kb (gb x))
          × (pb x ≡ kb (tb x))
          × (eb x ≡ kb (pb x)))
unfolding kib mib gib tib pib eib kb mb gb tb pb eb
units x = (
  (omega arith, omega arith, omega arith, omega arith, omega arith),
  (omega arith, omega arith, omega arith, omega arith, omega arith),
)
