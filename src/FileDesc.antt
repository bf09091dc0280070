-- ===== src/FileDesc.antt =====
-- mstack/mstack/file_desc.hpp: a file descriptor and its owner. `none` stands for the value -1, and
-- `closed` has the descriptors that `close` was called with, oldest first.
pub mod Owned
use mstack_cpp.Base.{ℕ, List, [], ◌∷◌, ◌++◌, Option, none, some}

pub record FileDesc : Type 0 where
  pub fd : Option ℕ

abbrev pub empty : FileDesc
empty = record { fd = none }

abbrev pub file_desc : ℕ → FileDesc
file_desc fd = record { fd = some fd }

-- The destructor.
abbrev pub closing : Option ℕ → List ℕ
closing none = []
closing (some fd) = fd ∷ []

pub destroy : FileDesc → List ℕ → List ℕ
destroy d closed = closed ++ closing d.fd

-- The move constructor: the new object, and what is left of the old one.
pub move_construct : FileDesc → FileDesc × FileDesc
move_construct other = (record { fd = other.fd }, record { fd = none })

-- The move assignment of another object, which swaps both.
pub move_assign : FileDesc → FileDesc → FileDesc × FileDesc
move_assign self other = (record { fd = other.fd }, record { fd = self.fd })

-- The defaulted copy constructor.
pub copy_construct : FileDesc → FileDesc × FileDesc
copy_construct other = (record { fd = other.fd }, other)

-- `from_fd` of what `::open` returned.
unfoldable pub from_fd : Option ℕ → Option FileDesc
from_fd none = none
from_fd (some fd) = some (file_desc fd)
