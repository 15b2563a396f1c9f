-- ===== src/Marketplace/View/Rows.antt =====
-- The view of one token under the three changes of the table of tokens.
use Prim.Native.String.{String}
use mathlib.Core.Option
use dwh.Base.{
  ◌≡◌, refl, ◌∙◌, ap, Option, none, some, List, [], ◌∷◌, ◌++◌, map, arith, str_eq, eq_iff,
  if◌then◌else◌,
}
use dwh.Common.Types.{Time}
use dwh.Common.Rows.{Nft, new_model}
use dwh.Database.Tables.{Column, token_uri, write, write_all, is_token, update_token, delete_token}

-- A row less its key and times.
abbrev pub body : Nft → Nft
body r = record r { model = new_model }

unfoldable pub view : String → List Nft → Option Nft
view id [] = none
view id (r ∷ rows) = if is_token id r then some (body r) else view id rows

write-token_id : (c : Column) (r : Nft) → (write c r).token_id ≡ r.token_id
write-token_id (token_uri v) r = refl
write-token_id c r = refl

write-model : (c : Column) (r : Nft) → (write c r).model ≡ r.model
write-model (token_uri v) r = refl
write-model c r = refl

write-body : (c : Column) (r : Nft) → body (write c r) ≡ write c (body r)
write-body (token_uri v) r = refl
write-body c r = refl

write_all-token_id : (cs : List Column) (r : Nft) → (write_all cs r).token_id ≡ r.token_id
write_all-token_id [] r = refl
write_all-token_id (c ∷ cs) r = write_all-token_id cs (write c r) ∙ write-token_id c r

write_all-model : (cs : List Column) (r : Nft) → (write_all cs r).model ≡ r.model
write_all-model [] r = refl
write_all-model (c ∷ cs) r = write_all-model cs (write c r) ∙ write-model c r

write_all-body : (cs : List Column) (r : Nft) → body (write_all cs r) ≡ write_all cs (body r)
write_all-body [] r = refl
write_all-body (c ∷ cs) r = write_all-body cs (write c r) ∙ ap (write_all cs) (write-body c r)

is_token-write_all :
    (j : String) (cs : List Column) (r : Nft) → is_token j (write_all cs r) ≡ is_token j r
is_token-write_all j cs r = cc (write_all-token_id cs r, write_all-model cs r)

-- `UpdateColumns` writes the columns to the token that it names and changes no other.
pub view-update :
    (id j : String) (cs : List Column) (rows : List Nft)
    → view j (map (update_token id cs) rows)
      ≡ (if str_eq id j then Option.map (write_all cs) (view j rows) else view j rows)
unfolding view
view-update id j cs [] = ground arith
view-update id j cs (r ∷ rows) = ground (
  arith,
  eq_iff id j,
  eq_iff r.token_id id,
  eq_iff r.token_id j,
  is_token-write_all j cs r,
  write_all-body cs r,
  view-update id j cs rows,
)

-- An appended row is seen under its key if the key had no row before.
pub view-append :
    (j : String) (rows : List Nft) (r : Nft)
    → view j (rows ++ (r ∷ []))
      ≡ elim (view j rows) [ some x ↦ some x | none ↦ if is_token j r then some (body r) else none ]
unfolding view
view-append j [] r = refl
view-append j (x ∷ rows) r = ground (arith, view-append j rows r)

-- A deletion leaves nothing under the key that it names, and every other token as it was.
pub view-delete :
    (now : Time) (id j : String) (rows : List Nft)
    → view j (map (delete_token now id) rows) ≡ (if str_eq id j then none else view j rows)
unfolding view
view-delete now id j [] = ground arith
view-delete now id j (r ∷ rows) =
    ground
      (arith, eq_iff id j, eq_iff r.token_id id, eq_iff r.token_id j, view-delete now id j rows)
