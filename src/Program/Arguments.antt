-- ===== src/Program/Arguments.antt =====
-- The program's argument: a device, an address and a port.
use mstack_cpp.Base.{
  ℕ, ◌^◌, ◌<◌, ◌≡◌, refl, ◌∙◌, ap, [], ◌∷◌, ◌++◌, arith, Option, some, true, false, append_assoc,
}
use mstack_cpp.Endpoint.{Endpoint}
use mstack_cpp.Text.{Text, decimal, starts_with_digit, from_chars}
use mstack_cpp.Text.Numbers.{from_chars-decimal, from_chars-no_digit}
use mstack_cpp.Text.Separators.{
  Lacks, before-at, before-nowhere, remove_prefix-behind, remove_prefix-all, before-empty,
  BelowColon-Lacks,
}
use mstack_cpp.Ipv4Addr
use mstack_cpp.Ipv4Addr.{ReadsDotted}
use mstack_cpp.EndpointText.{print}
use mstack_cpp.EndpointText.Roundtrip.{print_lem}
use mstack_cpp.Ipv4Addr.Roundtrip.{to_string-BelowColon, to_string-starts, make_from-to_string}
use mstack_cpp.Program.{Args, or_default, bind_ipv4_addr_default, parse_args}

-- The two parts in front of the colons, and the number behind them.
parts :
    (dev_name host port : Text)
    → Lacks b':' dev_name
    → Lacks b':' host
    → parse_args (dev_name ++ (b':' ∷ (host ++ (b':' ∷ port)))) ≡ record {
      dev_name = dev_name;
      bind_ipv4 = or_default host;
      port = from_chars (2 ^ 16) 0 port;
    }
unfolding parse_args
parts dev_name host port d h =
    let tail = host ++ (b':' ∷ port) in
    rw
      (
        before-at b':' dev_name tail d,
        remove_prefix-behind b':' dev_name tail,
        before-at b':' host port h,
        remove_prefix-behind b':' host port,
      )
      refl

or_default-text : (text : Text) → starts_with_digit text ≡ true → or_default text ≡ text
or_default-text [] h = absurd (ground arith)
or_default-text (c ∷ cs) h = refl

-- The arguments that a device, a text for the address and a port make.
abbrev made : Text → Text → ℕ → Args
made dev_name host port = record { dev_name = dev_name; bind_ipv4 = or_default host; port = port }

only_device : (dev_name : Text) → Lacks b':' dev_name → parse_args dev_name ≡ made dev_name [] 0
unfolding parse_args
only_device dev_name d =
    rw
      (
        before-nowhere b':' dev_name d,
        remove_prefix-all dev_name,
        before-empty b':',
        from_chars-no_digit (2 ^ 16) 0 [] refl,
      )
      refl

-- From a device's name without a colon, and the text of an endpoint whose numbers fit, with anything
-- behind it that no digit starts, the program takes the name, the endpoint's address, as text that
-- is read as that address, and its port. Where the address is left out it takes the default, and
-- with the device alone the default and port 0.
pub parse_args-print :
    (make_address_v4 : Text → Option ℕ) (dev_name rest : Text) (ep : Endpoint)
    → ReadsDotted make_address_v4
    → Lacks b':' dev_name
    → ep.addrv4 < 2 ^ 32
    → ep.addrv4_port < 2 ^ 16
    → starts_with_digit rest ≡ false
    → (parse_args (dev_name ++ (b':' ∷ (print ep ++ rest))) ≡ record {
      dev_name = dev_name;
      bind_ipv4 = Ipv4Addr.to_string ep.addrv4;
      port = ep.addrv4_port;
    })
      × (Ipv4Addr.make_from make_address_v4 (Ipv4Addr.to_string ep.addrv4) ≡ some ep.addrv4)
      × (parse_args (dev_name ++ (b':' ∷ b':' ∷ (decimal ep.addrv4_port ++ rest))) ≡ record {
        dev_name = dev_name;
        bind_ipv4 = bind_ipv4_addr_default;
        port = ep.addrv4_port;
      })
      × (parse_args dev_name
          ≡ record { dev_name = dev_name; bind_ipv4 = bind_ipv4_addr_default; port = 0 })
parse_args-print make_address_v4 dev_name rest ep reads d a p stop =
    let host = Ipv4Addr.to_string ep.addrv4 in
    let port = decimal ep.addrv4_port ++ rest in
    let number = from_chars-decimal (2 ^ 16) 0 ep.addrv4_port rest p stop in
    (
      ap (λ t. parse_args (dev_name ++ (b':' ∷ t)))
            (ap (λ t. t ++ rest) (print_lem ep)
              ∙ append_assoc host (b':' ∷ decimal ep.addrv4_port) rest)
          ∙ parts dev_name host port d (BelowColon-Lacks host (to_string-BelowColon ep.addrv4))
          ∙ ap
              (λ h. record {
                dev_name = dev_name;
                bind_ipv4 = h;
                port = from_chars (2 ^ 16) 0 port;
              })
              (or_default-text host (to_string-starts ep.addrv4))
          ∙ ap (λ n. record { dev_name = dev_name; bind_ipv4 = host; port = n }) number,
      make_from-to_string make_address_v4 ep.addrv4 reads a,
      parts dev_name [] port d tt ∙ ap (made dev_name []) number,
      only_device dev_name d,
    )
