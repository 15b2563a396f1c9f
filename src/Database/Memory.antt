-- ===== src/Database/Memory.antt =====
-- A database in memory that meets the assumptions. The handle is its error, and the calls named in
-- `faults` fail, which gives the variants that the examples of error paths run on.
use Prim.Native.String.{String}
use dwh.Base.{
  ◌≡◌, ◌≢◌, inl, inr, refl, Bool, true, false, ◌&&◌, Option, none, some, List, [], ◌∷◌, map, str_eq,
  eq_iff, Any, arith, if◌then◌else◌, Bool-cases,
}
use dwh.Common.Rows.{Offer, FungibleToken, User, new_model}
use dwh.Database.Tables.{
  Tables, Row, Stamp, stamped, insert, is_live, update_token, erase, set_sequence, append_to,
}
use dwh.Database.Schema.{contains, refers, add_table, remove_table, add_key}
use dwh.Database.Gorm.{Scan, found, no_rows, Gorm, IsLawful, IsSticky, IsClosing, IsLawfulSchema}

-- Which calls fail.
pub record Faults : Type 0 where
  pub create : Bool
  pub update : Bool
  pub delete : Bool

abbrev pub no_faults : Faults
no_faults = record { create = false; update = false; delete = false }

abbrev pub Handle : Type 0
Handle = Option String

-- The call is skipped if the handle has an error, or fails if it is to.
abbrev attempt : Bool → Handle → Tables → Tables → Handle × Tables
attempt fails (some e) old new = (some e, old)
attempt true none old new = (some "fault", old)
attempt false none old new = (none, new)

abbrev stamp_of : Stamp
stamp_of = record { key = 1; now = 7 }

abbrev pub scan_users : String → List User → Scan User
scan_users a [] = no_rows
scan_users a (u ∷ us) = let rest = scan_users a us in if str_eq u.address a then found u else rest

abbrev pub scan_offers : String → String → List Offer → Scan Offer
scan_offers id offer_id [] = no_rows
scan_offers id offer_id (o ∷ os) =
    let rest = scan_offers id offer_id os in
    if str_eq o.token_id id && str_eq o.offer_id offer_id then found o else rest

abbrev pub no_token : FungibleToken
no_token = record { model = new_model; owner_address = ""; denom = ""; emission_amount = 0 }

abbrev pub find_token : String → List FungibleToken → FungibleToken
find_token d [] = no_token
find_token d (f ∷ fs) =
    let rest = find_token d fs in if is_live f.model && str_eq f.denom d then f else rest

module _ (faults : Faults) where
  abbrev pub memory : Gorm
  memory = record {
    Db = Handle;
    error = λ db. db;
    close = λ db. some "sql: database is closed";
    create = λ r db t. attempt faults.create db t (insert stamp_of r t);
    create_tx = λ x db t.
        let (db', t') = attempt faults.create db t (insert stamp_of (Row.tx x) t) in
        (db', record x { model = stamped stamp_of }, t');
    update_columns = λ id cs db t.
        attempt faults.update db t (record t { nfts = map (update_token id cs) t.nfts });
    delete = λ d db t. attempt faults.delete db t (erase 9 d t);
    scan_user = λ a db t. scan_users a t.users;
    update_sequence = λ u n db t.
        attempt faults.update db t (record t { users = map (set_sequence 8 u.model.id n) t.users });
    scan_offer = λ id offer_id db t. scan_offers id offer_id t.offers;
    first_token = λ d db t. find_token d t.fungible_tokens;
    append_transfer = λ ft r db t. append_to stamp_of ft r t;
    has_table = λ a db t. contains a t.existing;
    create_table = λ a db t. attempt (contains a t.existing) db t (add_table a t);
    drop_table_if_exists = λ a db t. attempt (refers a t.foreign_keys) db t (remove_table a t);
    add_foreign_key = λ k db t. attempt faults.update db t (add_key k t);
  }

attempt_done :
    (fails : Bool) (db : Handle) (old new : Tables)
    → (attempt fails db old new).0 ≡ none
    → (attempt fails db old new).1 ≡ new
attempt_done fails (some e) old new h = cc
attempt_done true none old new h = cc
attempt_done false none old new h = refl

attempt_failed :
    (fails : Bool) (db : Handle) (old new : Tables) (e : String)
    → (attempt fails db old new).0 ≡ some e
    → (attempt fails db old new).1 ≡ old
attempt_failed fails (some e') old new e h = refl
attempt_failed true none old new e h = refl
attempt_failed false none old new e h = cc

scan_users_found :
    (a : String) (us : List User) (u : User)
    → scan_users a us ≡ found u
    → (u.address ≡ a) × Any (λ v. v ≡ u) us
scan_users_found a [] u h = cc
scan_users_found a (v ∷ us) u h = elim (Bool-cases (str_eq v.address a)) [
  | inl e ↦ let same : v ≡ u = ground arith in (ground (arith, eq_iff v.address a), inl same)
  | inr e ↦ let (p, q) = scan_users_found a us u (rw e at h) in (p, inr q)
]

scan_users_no_rows :
    (a : String) (us : List User) → scan_users a us ≡ no_rows → ¬ Any (λ v. v.address ≡ a) us
scan_users_no_rows a [] h m = m
scan_users_no_rows a (v ∷ us) h (inl m) = ground (arith, eq_iff v.address a)
scan_users_no_rows a (v ∷ us) h (inr m) = scan_users_no_rows a us (ground arith) m

scan_offers_found :
    (id offer_id : String) (os : List Offer) (o : Offer)
    → scan_offers id offer_id os ≡ found o
    → (o.token_id ≡ id) × (o.offer_id ≡ offer_id) × Any (λ v. v ≡ o) os
scan_offers_found id offer_id [] o h = cc
scan_offers_found id offer_id (v ∷ os) o h =
    elim (Bool-cases (str_eq v.token_id id && str_eq v.offer_id offer_id)) [
      | inl e ↦
          let same : v ≡ o = ground arith in
          (
            ground (arith, eq_iff v.token_id id),
            ground (arith, eq_iff v.offer_id offer_id),
            inl same,
          )
      | inr e ↦ let (p, q, r) = scan_offers_found id offer_id os o (rw e at h) in (p, q, inr r)
    ]

find_token_found :
    (d : String) (fs : List FungibleToken) (ft : FungibleToken)
    → find_token d fs ≡ ft
    → ft.model.id ≢ 0
    → (ft.denom ≡ d) × Any (λ v. v ≡ ft) fs
find_token_found d [] ft e h = absurd (h (ground arith))
find_token_found d (f ∷ fs) ft e h = elim (Bool-cases (is_live f.model && str_eq f.denom d)) [
  | inl m ↦ let same : f ≡ ft = ground arith in (ground (arith, eq_iff f.denom d), inl same)
  | inr m ↦ let (p, q) = find_token_found d fs ft (rw m at e) h in (p, inr q)
]

module _ (faults : Faults) where
  pub memory-IsLawful : IsLawful (memory faults)
  memory-IsLawful = record {
    create_done = λ r db t h. (stamp_of, omega arith, attempt_done _ db t _ h);
    create_failed = λ r db t e h. attempt_failed _ db t _ e h;
    create_tx_done = λ x db t h. (stamp_of, refl, attempt_done _ db t _ h);
    create_tx_failed = λ x db t e h. inl (attempt_failed _ db t _ e h);
    update_columns_done = λ id cs db t h. attempt_done _ db t _ h;
    update_columns_failed = λ id cs db t e h. attempt_failed _ db t _ e h;
    delete_done = λ d db t h. (9, attempt_done _ db t _ h);
    delete_failed = λ d db t e h. attempt_failed _ db t _ e h;
    scan_user_found = λ a db t u h. scan_users_found a t.users u h;
    scan_user_no_rows = λ a db t h. scan_users_no_rows a t.users h;
    update_sequence_done = λ u n db t h. (8, attempt_done _ db t _ h);
    update_sequence_failed = λ u n db t e h. attempt_failed _ db t _ e h;
    scan_offer_found = λ id offer_id db t o h. scan_offers_found id offer_id t.offers o h;
    first_token_found = λ d db t h. find_token_found d t.fungible_tokens _ refl h;
    append_transfer_tried = λ ft r db t. inr (stamp_of, refl);
  }

attempt_sticky :
    (fails : Bool) (db : Handle) (old new : Tables) (e : String)
    → db ≡ some e
    → ((attempt fails db old new).0 ≡ some e) × ((attempt fails db old new).1 ≡ old)
attempt_sticky fails db old new e h = rw h (refl, refl)

module _ (faults : Faults) where
  pub memory-IsSticky : IsSticky (memory faults)
  memory-IsSticky = record {
    create_sticky = λ r db t e h. attempt_sticky _ db t _ e h;
    create_tx_sticky = λ x db t e h. attempt_sticky _ db t _ e h;
  }

pub memory-IsClosing : (faults : Faults) → IsClosing (memory faults)
memory-IsClosing faults = record {
  create_tx_closed = λ x db t.
      let (failed, same) =
        attempt_sticky faults.create (some "sql: database is closed") t
          (insert stamp_of (Row.tx x) t) "sql: database is closed" refl in
      ("sql: database is closed", failed, same);
}

attempt_allowed :
    (fails : Bool) (db : Handle) (old new : Tables)
    → db ≡ none
    → fails ≡ false
    → ((attempt fails db old new).0 ≡ none) × ((attempt fails db old new).1 ≡ new)
attempt_allowed fails db old new h k = rw (h, k) (refl, refl)

pub memory-IsLawfulSchema : IsLawfulSchema (memory no_faults)
memory-IsLawfulSchema = record {
  has_table_contains = λ a db t. refl;
  create_table_done = λ a db t h k. attempt_allowed _ db t _ h k;
  drop_table_done = λ a db t h k. attempt_allowed _ db t _ h k;
  add_foreign_key_done = λ k db t h s g f. attempt_allowed _ db t _ h refl;
}
