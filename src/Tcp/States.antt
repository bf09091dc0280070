-- ===== src/Tcp/States.antt =====
-- `std::unordered_map` keyed by the two ends of a connection, as mstack/mstack/tcp.cpp uses it.
pub mod Laws
use mstack_cpp.Base.{List, [], ◌∷◌, if◌then◌else◌, Option, none, some}
use mstack_cpp.Endpoint.{TwoEnds, two_ends_eq}

abbrev pub StateMap : Type 0 → Type 0
StateMap Value = List (TwoEnds × Value)

unfoldable pub find : {Value : Type 0} → TwoEnds → StateMap Value → Option Value
find e [] = none
find e ((key, value) ∷ states) =
    let rest = find e states in if two_ends_eq key e then some value else rest

-- Gives an entry its value, which stands at its place if it is there already.
unfoldable pub assign : {Value : Type 0} → TwoEnds → Value → StateMap Value → StateMap Value
assign e value [] = (e, value) ∷ []
assign e value ((key, old) ∷ states) =
    let rest = assign e value states in
    if two_ends_eq key e then (e, value) ∷ states else (key, old) ∷ rest

pub erase : {Value : Type 0} → TwoEnds → StateMap Value → StateMap Value
erase e [] = []
erase e ((key, value) ∷ states) =
    let rest = erase e states in if two_ends_eq key e then rest else (key, value) ∷ rest
