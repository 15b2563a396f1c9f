-- ===== src/Marketplace/Users/Cases.antt =====
-- The ways in which `findOrCreateUser` can end, as a principle: what holds of the outcome and the
-- tables in each of them holds of every call.
use Prim.Native.String.{String}
use dwh.Base.{◌≡◌, refl, Option, none, some, inl, inr, Option-cases}
use dwh.Common.Types.{AccAddress}
use dwh.Common.Rows.{User, new_user}
use dwh.Database.Tables.{Tables, Row}
use dwh.Database.Gorm.{Scan, found, no_rows, scan_error}
use dwh.Env.Action.{World, Outcome, ok, err, errorf}
use dwh.Env.Calls.{Env, Account, Db, Reply, reply, failure}
use dwh.Marketplace.Users.{create_user, update_user, find_or_create_user}

module _ ⦃E : Env⦄ where
  -- The row that is inserted for an account.
  abbrev pub fresh_user : Account → User
  fresh_user acc = new_user E.sdk "" acc.address acc.coins acc.account_number acc.sequence

  -- The user with the account's sequence number.
  abbrev pub advanced : Account → User → User
  advanced acc u = record u { sequence_number = acc.sequence }

module _ ⦃E : Env⦄ (addr : AccAddress) (db : Db) (w : World)
    (P : Outcome (Option User) → Tables → Type 0) where
  abbrev Refused : Type 0
  Refused = (s : String) → P (err (errorf s)) w.tables

  abbrev Created : Account → Type 0
  Created acc =
      let (db', t) = E.gorm.create (Row.user (fresh_user acc)) db w.tables in
      E.gorm.error db' ≡ none → P (ok none) t

  abbrev CreateFailed : Account → Type 0
  CreateFailed acc =
      let (db', t) = E.gorm.create (Row.user (fresh_user acc)) db w.tables in
      (x s : String) → E.gorm.error db' ≡ some x → P (err (errorf s)) t

  abbrev Updated : Account → User → Type 0
  Updated acc u =
      let (db', t) = E.gorm.update_sequence (advanced acc u) acc.sequence db w.tables in
      E.gorm.error db' ≡ none → P (ok (some (advanced acc u))) t

  abbrev UpdateFailed : Account → User → Type 0
  UpdateFailed acc u =
      let (db', t) = E.gorm.update_sequence (advanced acc u) acc.sequence db w.tables in
      (x s : String) → E.gorm.error db' ≡ some x → P (err (errorf s)) t

  create_user_cases :
      (acc : Account)
      → Created acc
      → CreateFailed acc
      → P (create_user addr acc db w).0 (create_user addr acc db w).1.tables
  unfolding create_user
  create_user_cases acc c cf =
      elim (Option-cases (E.gorm.error (E.gorm.create (Row.user (fresh_user acc)) db w.tables).0)) [
        | inl e ↦ rw e (c e)
        | inr (x, e) ↦ rw e (cf x _ e)
      ]

  update_user_cases :
      (acc : Account) (u : User)
      → Updated acc u
      → UpdateFailed acc u
      → P (update_user addr acc u db w).0 (update_user addr acc u db w).1.tables
  unfolding update_user
  update_user_cases acc u c cf =
      elim (Option-cases
        (E.gorm.error (E.gorm.update_sequence (advanced acc u) acc.sequence db w.tables).0)) [
          | inl e ↦ rw e (c e)
          | inr (x, e) ↦ rw e (cf x _ e)
        ]

  find_or_create_user_split :
      (e : Option String) (r : Reply Account) (s : Scan User)
      → E.ensure_exists addr ≡ e
      → E.get_account addr ≡ r
      → E.gorm.scan_user (E.sdk.address addr) db w.tables ≡ s
      → Refused
      → ((acc : Account) → r ≡ reply acc → s ≡ no_rows → Created acc)
      → ((acc : Account) → CreateFailed acc)
      → ((acc : Account) (u : User) → s ≡ found u → Updated acc u)
      → ((acc : Account) (u : User) → UpdateFailed acc u)
      → P (find_or_create_user addr db w).0 (find_or_create_user addr db w).1.tables
  unfolding find_or_create_user
  find_or_create_user_split (some x) r s he hr hs p c cf u uf = rw he (p _)
  find_or_create_user_split none (failure x) s he hr hs p c cf u uf = rw (he, hr) (p _)
  find_or_create_user_split none (reply acc) no_rows he hr hs p c cf u uf =
      rw (he, hr, hs) (create_user_cases acc (c acc refl refl) (cf acc))
  find_or_create_user_split none (reply acc) (scan_error x) he hr hs p c cf u uf =
      rw (he, hr, hs) (p _)
  find_or_create_user_split none (reply acc) (found v) he hr hs p c cf u uf =
      rw (he, hr, hs) (update_user_cases acc v (u acc v refl) (uf acc v))

  pub find_or_create_user_cases :
      Refused
      → ((acc : Account)
          → E.get_account addr ≡ reply acc
          → E.gorm.scan_user (E.sdk.address addr) db w.tables ≡ no_rows
          → Created acc)
      → ((acc : Account) → CreateFailed acc)
      → ((acc : Account) (u : User)
          → E.gorm.scan_user (E.sdk.address addr) db w.tables ≡ found u
          → Updated acc u)
      → ((acc : Account) (u : User) → UpdateFailed acc u)
      → P (find_or_create_user addr db w).0 (find_or_create_user addr db w).1.tables
  find_or_create_user_cases = find_or_create_user_split _ _ _ refl refl refl
