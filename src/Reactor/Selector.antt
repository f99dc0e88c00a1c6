-- ===== src/Reactor/Selector.antt =====
-- What the reactor uses of `selectors`. `none` is a KeyError.
use l7_load_balancer.Prelude.{Option, none, some}
use l7_load_balancer.Prelude.Dict.{lookup, insert, remove}
use l7_load_balancer.Reactor.{Sock, Sock-discrete, Interest, Target, SelectorKey, Registered}

abbrev pub key : Interest → Target → SelectorKey
key i d = record { events = i; target = d }

-- `get_key(sock)`
abbrev pub get_key : Sock → Registered → Option SelectorKey
get_key s sel = lookup Sock-discrete s sel

unfoldable pub register : Sock → Interest → Target → Registered → Option Registered
register s i d sel = elim (get_key s sel) [
  | some _ ↦ none
  | none ↦ some (insert Sock-discrete s (key i d) sel)
]

unfoldable pub modify : Sock → Interest → Target → Registered → Option Registered
modify s i d sel = elim (get_key s sel) [
  | some _ ↦ some (insert Sock-discrete s (key i d) sel)
  | none ↦ none
]

unfoldable pub unregister : Sock → Registered → Option Registered
unregister s sel = elim (get_key s sel) [ some _ ↦ some (remove Sock-discrete s sel) | none ↦ none ]

-- `try: ... except (KeyError, ValueError): ...`, over the registrations before.
abbrev pub or_else : Option Registered → Registered → Registered
or_else none sel = sel
or_else (some sel') sel = sel'
