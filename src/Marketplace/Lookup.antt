-- ===== src/Marketplace/Lookup.antt =====
-- `getEventAttr` and `getMsgAddresses`: the two loops that read a message and its events.
pub mod Attributes
use Prim.Native.String.{String}
use dwh.Base.{Option, none, some, List, [], ◌∷◌, str_eq, if◌then◌else◌}
use dwh.Common.Types.{AccAddress}
use dwh.Marketplace.Messages.{Field, acc_address, unassignable, Msg, Event}

-- The inner loop, over the attributes of one event.
unfoldable pub find_attr : String → List (String × String) → Option String
find_attr key [] = none
find_attr key ((k, v) ∷ attrs) = if str_eq k key then some v else find_attr key attrs

-- `none` is the pair of "" and false.
unfoldable pub get_event_attr : List Event → String → String → Option String
unfolding find_attr
get_event_attr [] kind key = none
get_event_attr (e ∷ events) kind key =
    let rest = get_event_attr events kind key in
    if str_eq e.kind kind
    then elim (find_attr key e.attributes) [ some v ↦ some v | none ↦ rest ]
    else rest

-- The loop over the fields.
unfoldable pub collect_addresses : List Field → List AccAddress
collect_addresses [] = []
collect_addresses (acc_address a ∷ fields) = a ∷ collect_addresses fields
collect_addresses (unassignable ∷ fields) = collect_addresses fields

unfoldable pub get_msg_addresses : Msg → List AccAddress
get_msg_addresses msg = collect_addresses msg.fields
