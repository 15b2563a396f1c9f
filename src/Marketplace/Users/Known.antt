-- ===== src/Marketplace/Users/Known.antt =====
-- Which users have a row after `findOrCreateUser` and after the loop of `Handle` over addresses.
use Prim.Native.String.{String}
use mathlib.Core.Path.{subst}
use dwh.Base.{
  ap, sym, Any-mono, All, ℕ, ◌≡◌, ◌≢◌, none, Option, List, [], ◌∷◌, ◌∙◌, arith, ⊤, Any, map, inl,
  inr, Option-cases, Any-append_left, Any-append_right,
}
use dwh.Common.Types.{AccAddress, Time}
use dwh.Common.Rows.{User, new_user}
use dwh.Database.Tables.{Tables, Row, set_sequence}
use dwh.Database.Gorm.{IsLawful, found}
use dwh.Env.Action.{World, Outcome, ok, panic, ◌>>=◌, Outcome-cases}
use dwh.Env.Calls.{Env, Account, Db, reply}
use dwh.Marketplace.Users.{find_or_create_user, create_users}
use dwh.Marketplace.Users.Cases.{fresh_user, find_or_create_user_cases}

-- A user row has the address.
abbrev pub IsKnown : String → Tables → Type 0
IsKnown a t = Any (λ v. v.address ≡ a) t.users

set_sequence-IsKnown :
    (now : Time) (key n : ℕ) (a : String) (us : List User)
    → Any (λ v. v.address ≡ a) us
    → Any (λ v. v.address ≡ a) (map (set_sequence now key n) us)
set_sequence-IsKnown now key n a [] h = h
set_sequence-IsKnown now key n a (u ∷ us) (inl h) = inl (ground arith)
set_sequence-IsKnown now key n a (u ∷ us) (inr h) = inr (set_sequence-IsKnown now key n a us h)

module _ ⦃E : Env⦄ where
  -- The node answers for the account that it is asked for.
  abbrev pub IsHonest : Type 0
  IsHonest =
      (addr : AccAddress) (acc : Account) → E.get_account addr ≡ reply acc → acc.address ≡ addr

module _ ⦃E : Env⦄ (L : IsLawful E.gorm) (db : Db) where
  open L use {
    create_done, create_failed, update_sequence_done, update_sequence_failed, scan_user_found,
    scan_user_no_rows,
  }

  insert_user-IsKnown :
      (a : String) (u : User) (t : Tables)
      → IsKnown a t
      → IsKnown a (E.gorm.create (Row.user u) db t).1
  insert_user-IsKnown a u t h =
      elim (Option-cases (E.gorm.error (E.gorm.create (Row.user u) db t).0)) [
        | inl e ↦
            let (s, _, same) = create_done (Row.user u) db t e in
            rw same (Any-append_left _ t.users _ h)
        | inr (x, e) ↦ rw (create_failed (Row.user u) db t x e) h
      ]

  new_user-IsKnown :
      (a : String) (u : User) (t : Tables)
      → u.address ≡ a
      → E.gorm.error (E.gorm.create (Row.user u) db t).0 ≡ none
      → IsKnown a (E.gorm.create (Row.user u) db t).1
  new_user-IsKnown a u t same_address e =
      let (s, _, same) = create_done (Row.user u) db t e in
      rw same (Any-append_right _ t.users _ (inl same_address))

  update_sequence-IsKnown :
      (a : String) (u : User) (n : ℕ) (t : Tables)
      → IsKnown a t
      → IsKnown a (E.gorm.update_sequence u n db t).1
  update_sequence-IsKnown a u n t h =
      elim (Option-cases (E.gorm.error (E.gorm.update_sequence u n db t).0)) [
        | inl e ↦
            let (now, same) = update_sequence_done u n db t e in
            rw same (set_sequence-IsKnown now u.model.id n a t.users h)
        | inr (x, e) ↦ rw (update_sequence_failed u n db t x e) h
      ]

  -- A call keeps every user that is known, however it ends.
  pub find_or_create_user-keeps :
      (a : String) (addr : AccAddress) (w : World)
      → IsKnown a w.tables
      → IsKnown a (find_or_create_user addr db w).1.tables
  find_or_create_user-keeps a addr w h =
      find_or_create_user_cases addr db w (λ _ t. IsKnown a t) (λ s. h)
        (λ acc _ _ _. insert_user-IsKnown a _ w.tables h)
        (λ acc x s _. insert_user-IsKnown a _ w.tables h)
        (λ acc u _ _. update_sequence-IsKnown a _ _ w.tables h)
        (λ acc u x s _. update_sequence-IsKnown a _ _ w.tables h)

  found_user-IsKnown :
      (a : String) (u : User) (t : Tables) → E.gorm.scan_user a db t ≡ found u → IsKnown a t
  found_user-IsKnown a u t h =
      let (e, m) = scan_user_found a db t u h in
      Any-mono t.users (λ v same. ap (λ r. r.address) same ∙ e) m

  -- After a call that returns without an error the address is known.
  pub find_or_create_user-IsKnown :
      IsHonest
      → (addr : AccAddress) (w : World) (o : Option User) → (find_or_create_user addr db w).0 ≡ ok o
      → IsKnown (E.sdk.address addr) (find_or_create_user addr db w).1.tables
  unfolding new_user
  find_or_create_user-IsKnown honest addr w o =
      find_or_create_user_cases addr db w (λ r t. r ≡ ok o → IsKnown (E.sdk.address addr) t)
        (λ s h. absurd (cc))
        (λ acc hr _ e _.
          new_user-IsKnown _ (fresh_user acc) w.tables (ap E.sdk.address (honest addr acc hr)) e)
        (λ acc x s _ h. absurd (cc))
        (λ acc u hs _ _.
          update_sequence-IsKnown _ _ _ w.tables (found_user-IsKnown _ u w.tables hs))
        (λ acc u x s _ h. absurd (cc))

  create_users-keeps :
      (a : String) (addrs : List AccAddress) (w : World)
      → IsKnown a w.tables
      → IsKnown a (create_users addrs db w).1.tables
  unfolding create_users
  create_users-keeps a [] w h = h
  create_users-keeps a (addr ∷ addrs) w h = elim (Outcome-cases (find_or_create_user addr db w).0) [
    | inl (o, e) ↦
        rw (e, ◌>>=◌) (create_users-keeps a addrs _ (find_or_create_user-keeps a addr w h))
    | inr (inl (x, e)) ↦ rw (e, ◌>>=◌) (find_or_create_user-keeps a addr w h)
    | inr (inr e) ↦ rw (e, ◌>>=◌) (find_or_create_user-keeps a addr w h)
  ]

  create_users-cons :
      (addr : AccAddress) (addrs : List AccAddress) (w : World) (o : Option User)
      → (find_or_create_user addr db w).0 ≡ ok o
      → create_users (addr ∷ addrs) db w ≡ create_users addrs db (find_or_create_user addr db w).1
  unfolding create_users
  create_users-cons addr addrs w o e = rw (e, ◌>>=◌)

  -- After the loop of `Handle` over some addresses, if it ends without an error, on a lawful
  -- database and with a node that answers for the account it is asked for, each address has a user
  -- row.
  pub create_users-IsKnown :
      IsHonest
      → (addrs : List AccAddress) (w : World) → (create_users addrs db w).0 ≡ ok tt
      → All (λ addr. IsKnown (E.sdk.address addr) (create_users addrs db w).1.tables) addrs
  unfolding create_users
  create_users-IsKnown honest [] w h = tt
  create_users-IsKnown honest (addr ∷ addrs) w h =
      elim (Outcome-cases (find_or_create_user addr db w).0) [
        | inl (o, e) ↦
            let known = find_or_create_user-IsKnown honest addr w o e in
            let step = create_users-cons addr addrs w o e in
            let w' = (find_or_create_user addr db w).1 in
            subst
              (λ (p : Outcome ⊤ × World).
                All (λ a. IsKnown (E.sdk.address a) p.1.tables) (addr ∷ addrs))
              (sym step)
              (
                create_users-keeps (E.sdk.address addr) addrs w' known,
                create_users-IsKnown honest addrs w'
                    (ap (λ (p : Outcome ⊤ × World). p.0) (sym step) ∙ h),
              )
        | inr (inl (x, e)) ↦ absurd (ground arith)
        | inr (inr e) ↦ absurd (ground arith)
      ]

  -- For a known address a call returns a user, never a nil pointer, or an error.
  pub find_or_create_user-found :
      (addr : AccAddress) (w : World)
      → IsKnown (E.sdk.address addr) w.tables
      → ((find_or_create_user addr db w).0 ≢ panic) × ((find_or_create_user addr db w).0 ≢ ok none)
  find_or_create_user-found addr w h =
      find_or_create_user_cases addr db w (λ r t. (r ≢ panic) × (r ≢ ok none))
        (λ s. (λ e. cc, λ e. cc))
        (λ acc _ hs _. absurd (scan_user_no_rows (E.sdk.address addr) db w.tables hs h))
        (λ acc x s _. (λ e. cc, λ e. cc)) (λ acc u hs _. (λ e. cc, λ e. cc))
        (λ acc u x s _. (λ e. cc, λ e. cc))

  pub find_or_create_user-ne-panic :
      (addr : AccAddress) (w : World) → (find_or_create_user addr db w).0 ≢ panic
  find_or_create_user-ne-panic addr w =
      find_or_create_user_cases addr db w (λ r t. r ≢ panic) (λ s e. cc) (λ acc _ _ _ e. cc)
        (λ acc x s _ e. cc) (λ acc u _ _ e. cc) (λ acc u x s _ e. cc)

  pub create_users-ne-panic :
      (addrs : List AccAddress) (w : World) → (create_users addrs db w).0 ≢ panic
  unfolding create_users
  create_users-ne-panic [] w = λ e. cc
  create_users-ne-panic (addr ∷ addrs) w = ground (
    arith,
    find_or_create_user-ne-panic addr w,
    create_users-ne-panic addrs (find_or_create_user addr db w).1,
  )
