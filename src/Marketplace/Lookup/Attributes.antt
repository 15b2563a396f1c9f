-- ===== src/Marketplace/Lookup/Attributes.antt =====
-- What the two loops of `Lookup` compute: the first attribute among those of the events of a type,
-- and the address fields of a message in order.
use Prim.Native.String.{String}
use dwh.Base.{
  ◌≡◌, refl, ap, none, some, List, [], ◌∷◌, ◌++◌, str_eq, if◌then◌else◌, arith, Any, inl, inr, ◌↔◌,
}
use dwh.Common.Types.{AccAddress}
use dwh.Marketplace.Messages.{Field, acc_address, unassignable, Msg, Event}
use dwh.Marketplace.Lookup.{find_attr, get_event_attr, collect_addresses, get_msg_addresses}

-- The attributes of the events of one type, one after another.
abbrev pub attributes_of : String → List Event → List (String × String)
attributes_of kind [] = []
attributes_of kind (e ∷ events) =
    let rest = attributes_of kind events in
    if str_eq e.kind kind then e.attributes ++ rest else rest

find_attr-append :
    (key : String) (xs ys : List (String × String))
    → find_attr key (xs ++ ys)
      ≡ elim (find_attr key xs) [ some v ↦ some v | none ↦ find_attr key ys ]
unfolding find_attr
find_attr-append key [] ys = refl
find_attr-append key ((k, v) ∷ xs) ys = ground (arith, find_attr-append key xs ys)

-- The nested loops of `getEventAttr` return the first attribute with the key among those of all
-- the events of the type, laid end to end, and nothing exactly if there is none there.
pub get_event_attr-eq-find_attr :
    (events : List Event) (kind key : String)
    → get_event_attr events kind key ≡ find_attr key (attributes_of kind events)
unfolding get_event_attr
get_event_attr-eq-find_attr [] kind key = refl
get_event_attr-eq-find_attr (e ∷ events) kind key = ground (
  arith,
  find_attr-append key e.attributes (attributes_of kind events),
  get_event_attr-eq-find_attr events kind key,
)

-- Every field of address type is collected.
collect_addresses_complete :
    (fields : List Field) (a : AccAddress)
    → Any (λ f. f ≡ acc_address a) fields
    → Any (λ b. b ≡ a) (collect_addresses fields)
unfolding collect_addresses
collect_addresses_complete [] a h = h
collect_addresses_complete (acc_address b ∷ fields) a (inl e) = inl (cc)
collect_addresses_complete (acc_address b ∷ fields) a (inr h) =
    inr (collect_addresses_complete fields a h)
collect_addresses_complete (unassignable ∷ fields) a (inl e) = absurd (cc)
collect_addresses_complete (unassignable ∷ fields) a (inr h) = collect_addresses_complete fields a h

-- Nothing else is collected.
collect_addresses_sound :
    (fields : List Field) (a : AccAddress)
    → Any (λ b. b ≡ a) (collect_addresses fields)
    → Any (λ f. f ≡ acc_address a) fields
unfolding collect_addresses
collect_addresses_sound [] a h = h
collect_addresses_sound (acc_address b ∷ fields) a (inl e) = inl (ap acc_address e)
collect_addresses_sound (acc_address b ∷ fields) a (inr h) =
    inr (collect_addresses_sound fields a h)
collect_addresses_sound (unassignable ∷ fields) a h = inr (collect_addresses_sound fields a h)

-- An address is among those of a message exactly when some field of address type holds it.
pub get_msg_addresses_iff :
    (msg : Msg) (a : AccAddress)
    → Any (λ b. b ≡ a) (get_msg_addresses msg) ↔ Any (λ f. f ≡ acc_address a) msg.fields
unfolding get_msg_addresses
get_msg_addresses_iff msg a =
    (collect_addresses_sound msg.fields a, collect_addresses_complete msg.fields a)
