-- ===== src/SizeLiterals.antt =====
-- mstack/mstack/size_literals.hpp, on `unsigned long long`.
pub mod Laws
use mstack_cpp.Base.{ℕ, ◌*◌, u8, u64, shl}

pub kib : ℕ → ℕ
kib x = u64 (shl x 10)

pub mib : ℕ → ℕ
mib x = u64 (shl x 20)

pub gib : ℕ → ℕ
gib x = u64 (shl x 30)

pub tib : ℕ → ℕ
tib x = u64 (shl x 40)

pub pib : ℕ → ℕ
pib x = u64 (shl x 50)

pub eib : ℕ → ℕ
eib x = u64 (shl x 60)

pub kb : ℕ → ℕ
kb x = u64 (x * 1000)

pub mb : ℕ → ℕ
mb x = u64 (x * 1000000)

pub gb : ℕ → ℕ
gb x = u64 (x * 1000000000)

pub tb : ℕ → ℕ
tb x = u64 (x * 1000000000000)

pub pb : ℕ → ℕ
pb x = u64 (x * 1000000000000000)

pub eb : ℕ → ℕ
eb x = u64 (x * 1000000000000000000)

pub b : ℕ → ℕ
b x = u8 x
