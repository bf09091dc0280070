-- ===== src/FileDesc/Owned.antt =====
-- Every descriptor that was opened has one owner, or was closed once.
use mstack_cpp.Base.{
  ℕ, ◌+◌, ◌≡◌, refl, ap, sym, List, [], ◌∷◌, ◌++◌, arith, Option, none, some, ◌==◌, if◌then◌else◌,
}
use mstack_cpp.FileDesc.{FileDesc, empty, closing, destroy, move_construct, move_assign, from_fd}

-- How often a descriptor stands in a list, and how many objects own it.
abbrev pub count : ℕ → List ℕ → ℕ
count fd [] = 0
count fd (x ∷ xs) = (if x == fd then 1 else 0) + count fd xs

abbrev pub owners : ℕ → List FileDesc → ℕ
owners fd [] = 0
owners fd (d ∷ ds) = count fd (closing d.fd) + owners fd ds

count-append : (fd : ℕ) (xs ys : List ℕ) → count fd (xs ++ ys) ≡ count fd xs + count fd ys
count-append fd [] ys = omega arith
count-append fd (x ∷ xs) ys = omega (arith, count-append fd xs ys)

owners-append :
    (fd : ℕ) (ds es : List FileDesc) → owners fd (ds ++ es) ≡ owners fd ds + owners fd es
owners-append fd [] es = omega arith
owners-append fd (d ∷ ds) es = omega (arith, owners-append fd ds es)

-- The objects of a program that does not copy them, what it opened and what was closed. Objects stand
-- in any order, so an operation on one or two of them takes them at the front.
pub data Life : List ℕ → List FileDesc → List ℕ → Type 0 where
  start : Life [] [] []
  constructs :
      {opened closed : List ℕ} {ds : List FileDesc}
      → Life opened ds closed
      → Life opened (empty ∷ ds) closed
  opens :
      {opened closed : List ℕ} {ds : List FileDesc} {d : FileDesc} (fd : ℕ)
      → Life opened ds closed
      → from_fd (some fd) ≡ some d
      → Life (opened ++ fd ∷ []) (d ∷ ds) closed
  moves :
      {opened closed : List ℕ} {d : FileDesc} {ds : List FileDesc}
      → Life opened (d ∷ ds) closed
      → Life opened ((move_construct d).0 ∷ (move_construct d).1 ∷ ds) closed
  assigns :
      {opened closed : List ℕ} {d e : FileDesc} {ds : List FileDesc}
      → Life opened (d ∷ e ∷ ds) closed
      → Life opened ((move_assign d e).0 ∷ (move_assign d e).1 ∷ ds) closed
  destroys :
      {opened closed : List ℕ} {d : FileDesc} {ds : List FileDesc}
      → Life opened (d ∷ ds) closed
      → Life opened ds (destroy d closed)
  reorders :
      {opened closed : List ℕ} {d : FileDesc} (ds es : List FileDesc)
      → Life opened (ds ++ d ∷ es) closed
      → Life opened (d ∷ (ds ++ es)) closed

owners-front :
    (fd : ℕ) (d : FileDesc) (ds es : List FileDesc)
    → owners fd (d ∷ (ds ++ es)) ≡ owners fd (ds ++ d ∷ es)
owners-front fd d ds es = omega (arith, owners-append fd ds es, owners-append fd ds (d ∷ es))

abbrev owned : ℕ → Option FileDesc → ℕ
owned key none = 0
owned key (some d) = count key (closing d.fd)

opened_one :
    (fd key : ℕ) (d : FileDesc)
    → from_fd (some fd) ≡ some d
    → count key (closing d.fd) ≡ count key (fd ∷ [])
unfolding from_fd
opened_one fd key d e = ap (owned key) (sym e)

-- In a program that opens, moves, assigns by moving and destroys its objects, in any order, every
-- descriptor was opened just as often as it was closed and as objects own it: nothing that an object
-- owns was closed, nothing is closed twice, and once all objects are gone all is closed.
pub Life-balance :
    {opened closed : List ℕ} {ds : List FileDesc} (fd : ℕ)
    → Life opened ds closed
    → count fd closed + owners fd ds ≡ count fd opened
unfolding move_construct move_assign destroy
Life-balance fd start = refl
Life-balance fd (constructs life) = omega (arith, Life-balance fd life)
Life-balance fd (opens {opened} {d = d} new life e) =
    omega (arith, Life-balance fd life, count-append fd opened (new ∷ []), opened_one new fd d e)
Life-balance fd (moves life) = omega (arith, Life-balance fd life)
Life-balance fd (assigns life) = omega (arith, Life-balance fd life)
Life-balance fd (destroys {closed = closed} {d} life) =
    omega (arith, Life-balance fd life, count-append fd closed (closing d.fd))
Life-balance fd (reorders {d = d} ds es life) =
    omega (arith, Life-balance fd life, owners-front fd d ds es)
