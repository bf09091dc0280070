-- ===== src/Tests/Owners.antt =====
-- Descriptors and addresses that a program makes.
use mstack_cpp.Base.{ℕ, ◌+◌, ◌/◌, ◌%◌, ◌≡◌, refl, [], ◌∷◌, arith, false, ◌||◌}
use mstack_cpp.FileDesc.{FileDesc, file_desc, destroy, move_construct, from_fd}
use mstack_cpp.FileDesc.Owned.{Life, start, opens, moves, destroys, count, owners, Life-balance}
use mstack_cpp.MacAddr.{generate, is_broadcast, is_zero}
use mstack_cpp.MacAddr.Generated.{generate-IsMac}
use mstack_cpp.MacAddr.Laws.{IsMac}

abbrev opened : FileDesc
opened = file_desc 3

-- A descriptor is opened, moved, and the object that it was moved to is destroyed.
moved-Life : Life (3 ∷ []) ((move_construct opened).1 ∷ []) (destroy (move_construct opened).0 [])
moved-Life = destroys (moves (opens {d = opened} 3 start (unfold from_fd in refl)))

Life-balance_example :
    count 3 (destroy (move_construct opened).0 []) + owners 3 ((move_construct opened).1 ∷ [])
    ≡ count 3 (3 ∷ [])
Life-balance_example = Life-balance 3 moved-Life

generate-IsMac_example :
    (g : ℕ) × (generate (255 ∷ 1 ∷ 2 ∷ 3 ∷ 4 ∷ 5 ∷ []) ≡ g ∷ 1 ∷ 2 ∷ 3 ∷ 4 ∷ 5 ∷ [])
    × IsMac (g ∷ 1 ∷ 2 ∷ 3 ∷ 4 ∷ 5 ∷ [])
    × (g % 2 ≡ 0)
    × (g / 2 % 2 ≡ 1)
    × ((is_broadcast (g ∷ 1 ∷ 2 ∷ 3 ∷ 4 ∷ 5 ∷ []) || is_zero (g ∷ 1 ∷ 2 ∷ 3 ∷ 4 ∷ 5 ∷ [])) ≡ false)
generate-IsMac_example = generate-IsMac 255 (1 ∷ 2 ∷ 3 ∷ 4 ∷ 5 ∷ []) (ground arith)
