-- ===== src/Tests/Texts.antt =====
-- Addresses, endpoints and arguments as text, and a reader of dotted decimal.
use mstack_cpp.Base.{
  ℕ, ◌+◌, ◌*◌, ◌^◌, ◌≡◌, refl, ◌∙◌, ap, [], ◌∷◌, ◌++◌, arith, Option, none, some, append-nil, sym,
  ◌==◌, if◌then◌else◌,
}
use mstack_cpp.Endpoint.{Endpoint}
use mstack_cpp.Text.{Text, scan, decimal, before}
use mstack_cpp.Text.Numbers.{scan-decimal, scan-stops}
use mstack_cpp.Ipv4Addr
use mstack_cpp.Ipv4Addr.{dotted, ReadsDotted}
use mstack_cpp.EndpointText.{print, make_from}
use mstack_cpp.EndpointText.Roundtrip.{make_from-print}
use mstack_cpp.Program.{parse_args, bind_ipv4_addr_default}
use mstack_cpp.Program.Arguments.{parse_args-print}

-- The number at the front, and what stands behind the dot that ends it.
abbrev behind_dot : ℕ × Text → Option (ℕ × Text)
behind_dot (n, []) = none
behind_dot (n, c ∷ cs) = if c == b'.' then some (n, cs) else none

abbrev and_then : Option (ℕ × Text) → (ℕ → Text → Option ℕ) → Option ℕ
and_then none f = none
and_then (some (n, rest)) f = f n rest

number : Text → Option (ℕ × Text)
number source = behind_dot (scan 0 source)

abbrev whole : ℕ × Text → Option ℕ
whole (n, []) = some n
whole (n, c ∷ cs) = none

last_number : Text → Option ℕ
last_number source = whole (scan 0 source)

abbrev plus : ℕ → Option ℕ → Option ℕ
plus n none = none
plus n (some d) = some (n + d)

-- Dotted decimal, four numbers.
read_dotted : Text → Option ℕ
unfolding number last_number
read_dotted source = and_then (number source) (λ a s1. and_then (number s1) (λ b s2.
    and_then (number s2) (λ c s3. plus (a * 2 ^ 24 + b * 2 ^ 16 + c * 2 ^ 8) (last_number s3))))

number-decimal : (n : ℕ) (rest : Text) → number (decimal n ++ (b'.' ∷ rest)) ≡ some (n, rest)
unfolding number
number-decimal n rest =
    ap behind_dot (scan-decimal n (b'.' ∷ rest) ∙ scan-stops n (b'.' ∷ rest) refl)

last_number-decimal : (n : ℕ) → last_number (decimal n) ≡ some n
unfolding last_number
last_number-decimal n =
    ap whole (ap (scan 0) (sym (append-nil (decimal n))) ∙ scan-decimal n [] ∙ scan-stops n [] refl)

read_dotted-ReadsDotted : ReadsDotted read_dotted
unfolding read_dotted
read_dotted-ReadsDotted a b c d ha hb hc hd =
    rw
      (
        number-decimal a (decimal b ++ (b'.' ∷ decimal c ++ (b'.' ∷ decimal d))),
        number-decimal b (decimal c ++ (b'.' ∷ decimal d)),
        number-decimal c (decimal d),
        last_number-decimal d,
      )
      refl

abbrev ep : Endpoint
ep = record { addrv4 = 0x0a000001; addrv4_port = 8080 }

make_from-print_example :
    (port : Text) × (print ep ++ [] ≡ before b':' (print ep) ++ (b':' ∷ port))
    × (make_from read_dotted (before b':' (print ep)) port ≡ some ep)
make_from-print_example =
    make_from-print read_dotted ep [] read_dotted-ReadsDotted (omega arith) (omega arith) refl

-- "tap0".
abbrev tap : Text
tap = b't' ∷ b'a' ∷ b'p' ∷ b'0' ∷ []

parse_args-print_example :
    (parse_args (tap ++ (b':' ∷ (print ep ++ [])))
      ≡ record { dev_name = tap; bind_ipv4 = Ipv4Addr.to_string 0x0a000001; port = 8080 })
    × (Ipv4Addr.make_from read_dotted (Ipv4Addr.to_string 0x0a000001) ≡ some 0x0a000001)
    × (parse_args (tap ++ (b':' ∷ b':' ∷ (decimal 8080 ++ [])))
        ≡ record { dev_name = tap; bind_ipv4 = bind_ipv4_addr_default; port = 8080 })
    × (parse_args tap ≡ record { dev_name = tap; bind_ipv4 = bind_ipv4_addr_default; port = 0 })
parse_args-print_example =
    parse_args-print read_dotted tap [] ep read_dotted-ReadsDotted (ground arith) (omega arith)
      (omega arith) refl
