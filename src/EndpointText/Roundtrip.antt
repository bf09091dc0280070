-- ===== src/EndpointText/Roundtrip.antt =====
-- An endpoint that is printed is read again.
use mstack_cpp.Base.{
  ℕ, ◌^◌, ◌<◌, ◌≡◌, refl, ◌∙◌, ap, ◌∷◌, ◌++◌, Option, some, sym, append_assoc, false,
}
use mstack_cpp.Endpoint.{Endpoint}
use mstack_cpp.Text.{Text, decimal, from_chars, starts_with_digit, before}
use mstack_cpp.Text.Separators.{BelowColon-Lacks, before-at}
use mstack_cpp.Text.Numbers.{from_chars-decimal}
use mstack_cpp.Ipv4Addr
use mstack_cpp.Ipv4Addr.{ReadsDotted, octet}
use mstack_cpp.Ipv4Addr.Roundtrip.{make_from-to_string, to_string-BelowColon}
use mstack_cpp.EndpointText.{print, make_from}

make_from_lem :
    (make_address_v4 : Text → Option ℕ) (host port : Text) (addr port_u : ℕ)
    → Ipv4Addr.make_from make_address_v4 host ≡ some addr
    → from_chars (2 ^ 16) 0 port ≡ port_u
    → make_from make_address_v4 host port ≡ some (record { addrv4 = addr; addrv4_port = port_u })
unfolding make_from
make_from_lem make_address_v4 host port addr port_u h p = rw (make_from, h, p) refl

pub print_lem :
    (ep : Endpoint) → print ep ≡ Ipv4Addr.to_string ep.addrv4 ++ (b':' ∷ decimal ep.addrv4_port)
unfolding print
print_lem ep = refl

-- An endpoint whose numbers fit is printed as its address, a colon and its port; from the text in
-- front of the colon and the one behind it, whatever follows that is not a digit, the same endpoint
-- is made.
pub make_from-print :
    (make_address_v4 : Text → Option ℕ) (ep : Endpoint) (rest : Text)
    → ReadsDotted make_address_v4
    → ep.addrv4 < 2 ^ 32
    → ep.addrv4_port < 2 ^ 16
    → starts_with_digit rest ≡ false
    → (port : Text) × (print ep ++ rest ≡ before b':' (print ep) ++ (b':' ∷ port))
      × (make_from make_address_v4 (before b':' (print ep)) port ≡ some ep)
unfolding print
make_from-print make_address_v4 ep rest reads a p stop =
    let host = Ipv4Addr.to_string ep.addrv4 in
    let front =
      before-at b':' host (decimal ep.addrv4_port)
        (BelowColon-Lacks host (to_string-BelowColon _)) in
    (
      decimal ep.addrv4_port ++ rest,
      append_assoc host (b':' ∷ decimal ep.addrv4_port) rest
          ∙ ap (λ h. h ++ (b':' ∷ (decimal ep.addrv4_port ++ rest))) (sym front),
      make_from_lem make_address_v4 _ _ ep.addrv4 ep.addrv4_port
          (ap (Ipv4Addr.make_from make_address_v4) front
            ∙ make_from-to_string make_address_v4 ep.addrv4 reads a)
          (from_chars-decimal (2 ^ 16) 0 ep.addrv4_port rest p stop),
    )
