-- ===== src/Ipv4Addr/Roundtrip.antt =====
-- An address that is printed is read again.
use mstack_cpp.Base.{
  ℕ, ◌+◌, ◌*◌, ◌^◌, ◌<◌, ◌≡◌, ◌∙◌, ap, Option, some, arith, true, ◌∷◌, ◌++◌, All-append,
}
use mstack_cpp.Text.{Text, decimal, starts_with_digit}
use mstack_cpp.Text.Numbers.{decimal-starts}
use mstack_cpp.Text.Separators.{BelowColon, decimal-BelowColon}
use mstack_cpp.Ipv4Addr.{octet, to_string, make_from, ReadsDotted}

octets :
    (raw : ℕ)
    → raw < 2 ^ 32
    → octet 24 raw * 2 ^ 24 + octet 16 raw * 2 ^ 16 + octet 8 raw * 2 ^ 8 + octet 0 raw ≡ raw
octets raw h = omega arith

pub make_from-to_string :
    (make_address_v4 : Text → Option ℕ) (raw : ℕ)
    → ReadsDotted make_address_v4
    → raw < 2 ^ 32
    → make_from make_address_v4 (to_string raw) ≡ some raw
unfolding make_from to_string
make_from-to_string make_address_v4 raw reads h =
    reads (octet 24 raw) (octet 16 raw) (octet 8 raw) (octet 0 raw) (omega arith) (omega arith)
      (omega arith) (omega arith)
    ∙ ap (λ r. some r) (octets raw h)

after_dot : (n : ℕ) (text : Text) → BelowColon text → BelowColon (decimal n ++ (b'.' ∷ text))
after_dot n text h =
    All-append (λ x. x < b':') (decimal n) (b'.' ∷ text) (decimal-BelowColon n) (omega arith, h)

pub to_string-BelowColon : (raw : ℕ) → BelowColon (to_string raw)
unfolding to_string
to_string-BelowColon raw =
    after_dot (octet 24 raw) _
      (after_dot (octet 16 raw) _ (after_dot (octet 8 raw) _ (decimal-BelowColon (octet 0 raw))))

pub to_string-starts : (raw : ℕ) → starts_with_digit (to_string raw) ≡ true
unfolding to_string
to_string-starts raw = decimal-starts (octet 24 raw) _
