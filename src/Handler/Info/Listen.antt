-- ===== src/Handler/Info/Listen.antt =====
-- handler.go: `listenAddrs`, with the functions of the package net that it uses. `is_unspecified`
-- stands for `ParseIP` with `IsUnspecified`, and the addresses of the interfaces are an argument.
use gomc_rest.Common.{
  ◌≡◌, refl, take, ◌≡◌, ℕ, ◌+◌, ◌/◌, ◌%◌, Bool, true, false, not, ◌&&◌, ◌||◌, Option, none, some,
  List, [], ◌∷◌, ◌++◌, ltb, drop, length, ◌==◌, if◌then◌else◌,
}
use gomc_rest.Common.Text.{Text, codes, text_eq, split_at_byte?}

-- The host and the port around the last colon.
unfoldable pub split_at_last? : ℕ → Text → Option (Text × Text)
split_at_last? c [] = none
split_at_last? c (d ∷ s) = elim (split_at_last? c s) [
  | some (l, r) ↦ some (d ∷ l, r)
  | none ↦ if d == c then some ([], s) else none
]

unfoldable pub contains_byte : ℕ → Text → Bool
contains_byte c s = elim (split_at_byte? c s) [ none ↦ false | some _ ↦ true ]

-- A host in brackets, after the opening one: the closing bracket is its last byte and its only one.
unfoldable pub bracketed_host : Text → Option Text
bracketed_host s = elim (split_at_byte? b']' s) [
  | some (host, []) ↦ if contains_byte b'[' host then none else some host
  | _ ↦ none
]

unfoldable pub plain_host : Text → Option Text
plain_host s =
    if contains_byte b':' s || contains_byte b'[' s || contains_byte b']' s then none else some s

unfoldable pub host_of : Text → Option Text
unfolding contains_byte bracketed_host plain_host
host_of [] = some []
host_of (c ∷ s) = if c == b'[' then bracketed_host s else plain_host (c ∷ s)

abbrev no_brackets : Text → Bool
no_brackets s = not (contains_byte b'[' s || contains_byte b']' s)

-- `net.SplitHostPort`; `none` is any error.
unfoldable pub split_host_port : Text → Option (Text × Text)
unfolding split_at_last? host_of contains_byte
split_host_port s = elim (split_at_last? b':' s) [
  | none ↦ none
  | some (front, port) ↦ elim (host_of front) [
    | none ↦ none
    | some host ↦ if no_brackets port then some (host, port) else none
  ]
]

-- `net.JoinHostPort`
unfoldable pub join_host_port : Text → Text → Text
unfolding contains_byte
join_host_port host port =
    if contains_byte b':' host then (b'[' ∷ host) ++ (b']' ∷ b':' ∷ port) else host ++ (b':' ∷ port)

-- An address of an interface: the bytes of a `*net.IPNet`, or another kind.
pub data InterfaceAddr : Type 0 where
  ip_net : List ℕ → InterfaceAddr
  other_addr : InterfaceAddr

abbrev v4_prefix : List ℕ
v4_prefix = 0 ∷ 0 ∷ 0 ∷ 0 ∷ 0 ∷ 0 ∷ 0 ∷ 0 ∷ 0 ∷ 0 ∷ 255 ∷ 255 ∷ []

-- `To4`: four bytes, or four behind the prefix.
unfoldable pub to_4 : List ℕ → Option (List ℕ)
to_4 ip =
    if length ip == 4
    then some ip
    else if length ip == 16 && text_eq (take 12 ip) v4_prefix
    then some (drop 12 ip)
    else none

unfoldable pub is_loopback : List ℕ → Bool
is_loopback [] = false
is_loopback (b ∷ bs) = b == 127

-- A byte in decimal.
unfoldable pub decimal_byte : ℕ → Text
decimal_byte b =
    if ltb b 10
    then (b'0' + b) ∷ []
    else if ltb b 100
    then (b'0' + b / 10) ∷ (b'0' + b % 10) ∷ []
    else (b'0' + b / 100) ∷ (b'0' + b / 10 % 10) ∷ (b'0' + b % 10) ∷ []

-- `String` of an IPv4 address.
unfoldable pub dotted : List ℕ → Text
unfolding decimal_byte
dotted [] = []
dotted (b ∷ []) = decimal_byte b
dotted (b ∷ c ∷ bs) = decimal_byte b ++ (b'.' ∷ dotted (c ∷ bs))

abbrev v4_of : InterfaceAddr → Option (List ℕ)
v4_of (ip_net ip) = to_4 ip
v4_of other_addr = none

-- The loop over the interfaces.
unfoldable pub reachable : List InterfaceAddr → Text → List Text
unfolding to_4 is_loopback dotted join_host_port
reachable [] port = []
reachable (a ∷ as') port =
    let rest = reachable as' port in
    elim (v4_of a) [
      | none ↦ rest
      | some ip ↦ if is_loopback ip then rest else join_host_port (dotted ip) port ∷ rest
    ]

-- `listenAddrs`; `none` for the interfaces is an error of the system, and the empty list is nil.
unfoldable pub listen_addrs : (Text → Bool) → Option (List InterfaceAddr) → Text → List Text
unfolding split_host_port join_host_port reachable
listen_addrs is_unspecified interfaces listen = elim (split_host_port listen) [
  | none ↦ []
  | some (host, port) ↦
      if not (text_eq host []) && not (is_unspecified host)
      then join_host_port host port ∷ []
      else elim interfaces [ none ↦ [] | some addrs ↦ reachable addrs port ]
]

listen_addrs_test :
    listen_addrs
      (λ host. text_eq host (codes "0.0.0.0"))
      (some (ip_net (127 ∷ 0 ∷ 0 ∷ 1 ∷ []) ∷ ip_net (192 ∷ 168 ∷ 0 ∷ 7 ∷ []) ∷ other_addr ∷ []))
      (codes ":8080")
    ≡ codes "192.168.0.7:8080" ∷ []
unfolding listen_addrs split_at_byte? text_eq
listen_addrs_test = refl
