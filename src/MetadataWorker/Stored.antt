-- ===== src/MetadataWorker/Stored.antt =====
-- The documents after `upsertTokenMetadata`, and nil values under `processMessage`, of
-- x/tokenMetadataService/service.go.
use Prim.Native.String.{String}
use dwh.Base.{
  ℕ, Bool, false, All, ◌⊎◌, ◌≡◌, ◌≢◌, refl, ap, sym, ◌∙◌, true, Option, none, some, List, [], ◌∷◌,
  arith, str_eq, eq_iff, eq_refl, if◌then◌else◌, Bool-cases, Option-cases, inl, inr,
}
use dwh.Env.Action.{ok, panic, Outcome-cases}
use dwh.Env.Calls.{reply, Reply-cases}
use dwh.Common.Queue.{TaskInfo, Json, object, unmarshal}
use dwh.MetadataWorker.{
  Value, text, other, Metadata, Document, Host, State, TokenMetadataWorker, value_eq, lookup,
  option_eq, agrees, deep_equal, find_one, set_field, set_fields, update_one, set_metadata,
  without_own, set_checked, empty_document, change, is_same, lookup_in, get_metadata,
  upsert_token_metadata, send_image, is_metadata_erc721, process_metadata, process_message,
}

value_eq-eq : (v w : Value) → value_eq v w ≡ true → v ≡ w
value_eq-eq (text a) (text b) h = ground (arith, eq_iff a b)
value_eq-eq (text a) (other b) h = cc
value_eq-eq (other a) (text b) h = cc
value_eq-eq (other a) (other b) h = ground (arith, eq_iff a b)

option_eq-eq : (v w : Option Value) → option_eq v w ≡ true → v ≡ w
option_eq-eq none none h = refl
option_eq-eq none (some w) h = cc
option_eq-eq (some v) none h = cc
option_eq-eq (some v) (some w) h = ap some (value_eq-eq v w h)

agrees-lookup :
    (keys a b : Metadata) (key : String) (v : Value)
    → agrees keys a b ≡ true
    → lookup key keys ≡ some v
    → lookup key a ≡ lookup key b
agrees-lookup [] a b key v h k = cc
agrees-lookup ((j, w) ∷ keys) a b key v h k =
    ground
      (arith, agrees-lookup keys a b key v, option_eq-eq (lookup j a) (lookup j b), eq_iff j key)

deep_equal-lookup :
    (a b : Metadata) (key : String) → deep_equal a b ≡ true → lookup key a ≡ lookup key b
deep_equal-lookup a b key h = elim (Option-cases (lookup key a)) [
  | inr (v, e) ↦ agrees-lookup a a b key v (ground arith) e
  | inl e ↦ elim (Option-cases (lookup key b)) [
    | inl f ↦ e ∙ sym f
    | inr (v, f) ↦ agrees-lookup b a b key v (ground arith) f
  ]
]

-- What the first map has under a key, or else what the second has.
abbrev pub first_of : Option Value → Option Value → Option Value
first_of (some v) w = some v
first_of none w = w

lookup-set_field :
    (key k : String) (v : Value) (m : Metadata)
    → lookup key (set_field k v m) ≡ (if str_eq k key then some v else lookup key m)
lookup-set_field key k v [] = ground arith
lookup-set_field key k v ((j, w) ∷ m) =
    ground (arith, lookup-set_field key k v m, eq_iff j k, eq_iff j key, eq_iff k key)

-- The document under the key is changed, or made if there is none.
find_one-update_one :
    (id j : String) (f : Document → Document) (fresh : Document) (docs : List Document)
    → ((d : Document) → d.token_id ≡ id → (f d).token_id ≡ id)
    → fresh.token_id ≡ id
    → find_one j (update_one id f fresh docs) ≡ (
        if str_eq id j
        then elim (find_one id docs) [ none ↦ some fresh | some d ↦ some (f d) ]
        else find_one j docs)
find_one-update_one id j f fresh [] hf h = ground (arith, h)
find_one-update_one id j f fresh (d ∷ docs) hf h = ground (
  arith,
  find_one-update_one id j f fresh docs hf h,
  hf d,
  eq_iff d.token_id id,
  eq_iff d.token_id j,
  eq_iff id j,
)

-- A key of the document under the token, if there is one.
abbrev pub stored_field : String → Option Document → Option Value
stored_field key none = none
stored_field key (some d) = lookup key d.fields

lookup-without_own :
    (key : String) (m : Metadata)
    → str_eq key "dwhData" ≡ false
    → lookup key (without_own m) ≡ lookup key m
lookup-without_own key [] h = refl
lookup-without_own key ((k, v) ∷ m) h =
    ground (arith, lookup-without_own key m h, eq_iff k key, eq_iff k "dwhData")

module _ (H : Host) where
  -- The keys are names of fields.
  abbrev pub AllPlain : Metadata → Type 0
  AllPlain = All (λ f. H.is_plain f.0 ≡ true)

  without_own-AllPlain : (m : Metadata) → AllPlain m → AllPlain (without_own m)
  without_own-AllPlain [] h = tt
  without_own-AllPlain ((k, v) ∷ m) h = elim (Bool-cases (str_eq k "dwhData")) [
    | inl e ↦ rw e (without_own-AllPlain m h.1)
    | inr e ↦ rw e (h.0, without_own-AllPlain m h.1)
  ]

  lookup-set_fields :
      (key : String) (new m : Metadata)
      → AllPlain new
      → lookup key (set_fields H new m) ≡ first_of (lookup key new) (lookup key m)
  lookup-set_fields key [] m h = refl
  lookup-set_fields key ((k, v) ∷ new) m h =
      ground
        (arith, h.0, lookup-set_field key k v (set_fields H new m), lookup-set_fields key new m h.1)

  change_keeps :
      (task : TaskInfo) (metadata : Option Metadata) (o : Option Document) (f : Document → Document)
      (d : Document)
      → change H task metadata o ≡ some f
      → ((d.token_id ≡ task.token_id → (f d).token_id ≡ task.token_id)
          × ((f d).last_checked ≡ H.now))
  change_keeps task metadata o f d h = elim (Bool-cases (is_same H metadata o)) [
    | inl same ↦
        let at : set_checked H ≡ f = ground (arith, same, h) in
        (λ e. ap (λ g. (g d).token_id) (sym at) ∙ e, ap (λ g. (g d).last_checked) (sym at))
    | inr differ ↦ elim (Option-cases metadata) [
      | inl nil ↦ absurd (ground (arith, differ, nil, h))
      | inr (m, there) ↦
          let at : set_metadata H task m ≡ f = ground (arith, differ, there, h) in
          (λ e. ap (λ g. (g d).token_id) (sym at), ap (λ g. (g d).last_checked) (sym at))
    ]
  ]

  -- What an update leaves for the token: the document that it has changed or made.
  abbrev pub changed : TaskInfo → (Document → Document) → Option Document → Document
  changed task f none = f (empty_document H task)
  changed task f (some d) = f d

  upsert_done :
      (task : TaskInfo) (metadata : Option Metadata) (docs : List Document)
      → (upsert_token_metadata H task metadata docs).0 ≡ ok tt
      → (f : Document → Document) × (change H task metadata (find_one task.token_id docs) ≡ some f)
        × ((upsert_token_metadata H task metadata docs).1
            ≡ update_one task.token_id f (f (empty_document H task)) docs)
  unfolding upsert_token_metadata
  upsert_done task metadata docs h =
      elim (Option-cases (change H task metadata (find_one task.token_id docs))) [
        | inl nil ↦ absurd (ground (arith, nil, h))
        | inr (f, there) ↦ (f, there, ground (arith, there, h))
      ]

  -- The token has a document that was checked now, and the others are as they were.
  pub upsert_finds :
      (task : TaskInfo) (metadata : Option Metadata) (docs : List Document)
      → (upsert_token_metadata H task metadata docs).0 ≡ ok tt
      → (f : Document → Document) × (change H task metadata (find_one task.token_id docs) ≡ some f)
        × (find_one task.token_id (upsert_token_metadata H task metadata docs).1
            ≡ some (changed task f (find_one task.token_id docs)))
        × ((changed task f (find_one task.token_id docs)).last_checked ≡ H.now)
        × ((j : String)
            → find_one j (upsert_token_metadata H task metadata docs).1 ≡ (
                if str_eq task.token_id j
                then some (changed task f (find_one task.token_id docs))
                else find_one j docs))
  upsert_finds task metadata docs h =
      let id = task.token_id in
      let o = find_one id docs in
      let (f, there, result) = upsert_done task metadata docs h in
      let fresh = f (empty_document H task) in
      let keeps =
        λ (d : Document) (e : d.token_id ≡ id). (change_keeps task metadata o f d there).0 e in
      let made = (change_keeps task metadata o f (empty_document H task) there).0 refl in
      let at =
        λ (j : String). ap (find_one j) result ∙ find_one-update_one id j f fresh docs keeps made in
      let all : (j : String)
          → find_one j (upsert_token_metadata H task metadata docs).1
            ≡ (if str_eq id j then some (changed task f o) else find_one j docs) =
        λ j. at j ∙ elim (Option-cases o) [
          | inl missing ↦ ground (arith, missing)
          | inr (d, found) ↦ ground (arith, found)
        ] in
      let now : (changed task f o).last_checked ≡ H.now = elim (Option-cases o) [
        | inl missing ↦
            ap (λ x. (changed task f x).last_checked) missing
            ∙ (change_keeps task metadata o f (empty_document H task) there).1
        | inr (d, found) ↦
            ap (λ x. (changed task f x).last_checked) found
            ∙ (change_keeps task metadata o f d there).1
      ] in
      (f, there, all id ∙ ground (arith, eq_refl id), now, all)

  -- Each key of the document after an update, by those of the metadata and of the document before.
  changed-lookup :
      (task : TaskInfo) (m : Metadata) (o : Option Document) (f : Document → Document)
      (key : String)
      → change H task (some m) o ≡ some f
      → AllPlain m
      → str_eq key "dwhData" ≡ false
      → lookup key (changed task f o).fields ≡ first_of (lookup key m) (stored_field key o)
  changed-lookup task m none f key h plain unlike =
      let at : set_metadata H task m ≡ f = ground (arith, h) in
      ap (λ g. lookup key (g (empty_document H task)).fields) (sym at)
      ∙ (lookup-set_fields key (without_own m) [] (without_own-AllPlain m plain)
          ∙ ap (λ v. first_of v none) (lookup-without_own key m unlike))
  changed-lookup task m (some d) f key h plain unlike = elim (Bool-cases (deep_equal m d.fields)) [
    | inl same ↦
        let at : set_checked H ≡ f = ground (arith, same, h) in
        ap (λ g. lookup key (g d).fields) (sym at)
        ∙ ground (arith, deep_equal-lookup m d.fields key same)
    | inr differ ↦
        let at : set_metadata H task m ≡ f = ground (arith, differ, h) in
        ap (λ g. lookup key (g d).fields) (sym at)
        ∙ (lookup-set_fields key (without_own m) d.fields (without_own-AllPlain m plain)
            ∙ ap (λ v. first_of v (lookup key d.fields)) (lookup-without_own key m unlike))
  ]

  -- For metadata that are not null and whose keys are plain names of fields, after
  -- `upsertTokenMetadata` returns without an error, the token has a document that was checked now,
  -- in which each key but `dwhData` has the new value, or its old value where the new metadata
  -- lack it; the documents of all other tokens are as they were.
  pub upsert_stores :
      (task : TaskInfo) (metadata : Metadata) (docs : List Document)
      → AllPlain metadata
      → (upsert_token_metadata H task (some metadata) docs).0 ≡ ok tt
      → (d : Document) × (find_one task.token_id
            (upsert_token_metadata H task (some metadata) docs).1
          ≡ some d)
        × (d.last_checked ≡ H.now)
        × ((key : String)
            → str_eq key "dwhData" ≡ false
            → lookup key d.fields
              ≡ first_of (lookup key metadata) (stored_field key (find_one task.token_id docs)))
        × ((j : String)
            → find_one j (upsert_token_metadata H task (some metadata) docs).1
              ≡ (if str_eq task.token_id j then some d else find_one j docs))
  upsert_stores task metadata docs plain h =
      let o = find_one task.token_id docs in
      let (f, there, found, now, all) = upsert_finds task (some metadata) docs h in
      (
        changed task f o,
        found,
        now,
        λ key unlike. changed-lookup task metadata o f key there plain unlike,
        all,
      )

  upsert_panics :
      (task : TaskInfo) (metadata : Option Metadata) (docs : List Document)
      → (upsert_token_metadata H task metadata docs).0 ≡ panic
      → (metadata ≡ none) × (find_one task.token_id docs ≢ none)
  unfolding upsert_token_metadata
  upsert_panics task (some m) docs h = absurd (ground arith)
  upsert_panics task none docs h = (refl, λ missing. absurd (ground arith))

  send_panics :
      (tmw : TokenMetadataWorker) (task : TaskInfo) (is_valid : Bool) (metadata : Option Metadata)
      (priority : ℕ) (s : State)
      → (send_image H tmw task is_valid metadata priority s).0 ≡ panic
      → (is_valid ≡ true) × ((v : String) × (lookup_in "image" metadata ≡ some (other v)))
  unfolding send_image
  send_panics tmw task is_valid metadata priority s h =
      elim (Option-cases (lookup_in "image" metadata)) [
        | inl missing ↦ absurd (ground (arith, missing, h))
        | inr (text a, found) ↦ absurd (ground (arith, found, h))
        | inr (other v, found) ↦ (ground (arith, found, h), (v, found))
      ]

  -- `processMessage` panics on a task only where the token's metadata are fetched, checked by the
  -- validator and read, and where either they are null and the token has a document, so that
  -- `dwhData` is written into a nil map, or they are valid and have an image that is no text.
  pub process_message_panics :
      (tmw : TokenMetadataWorker) (o : Json) (priority : ℕ) (s : State)
      → (process_message H tmw (object o) priority s).0 ≡ panic
      → (bytes : List ℕ) × (get_metadata H (unmarshal o).url ≡ reply bytes)
        × (is_valid : Bool) × (is_metadata_erc721 H bytes ≡ reply is_valid)
        × (metadata : Option Metadata) × (H.unmarshal_ext_json bytes ≡ reply metadata)
        × (((metadata ≡ none) × (find_one (unmarshal o).token_id s.documents ≢ none))
            ⊎ ((is_valid ≡ true) × ((v : String) × (lookup_in "image" metadata ≡ some (other v)))))
  unfolding process_message process_metadata
  process_message_panics tmw o priority s h =
      let task = unmarshal o in
      elim (Reply-cases (get_metadata H task.url)) [
        | inl (e, got) ↦ absurd (ground (arith, got, h))
        | inr (bytes, got) ↦ elim (Reply-cases (is_metadata_erc721 H bytes)) [
          | inl (e, checked) ↦ absurd (ground (arith, got, checked, h))
          | inr (is_valid, checked) ↦ elim (Reply-cases (H.unmarshal_ext_json bytes)) [
            | inl (e, read) ↦ absurd (ground (arith, got, checked, read, h))
            | inr (metadata, read) ↦
                let up = upsert_token_metadata H task metadata s.documents in
                let s' = record s { documents = up.1 } in
                elim (Outcome-cases up.0) [
                  | inr (inl (e, failed)) ↦ absurd (ground (arith, got, checked, read, failed, h))
                  | inr (inr failed) ↦ (
                    bytes,
                    got,
                    is_valid,
                    checked,
                    metadata,
                    read,
                    inl (upsert_panics task metadata s.documents failed),
                  )
                  | inl (_, stored) ↦ (
                    bytes,
                    got,
                    is_valid,
                    checked,
                    metadata,
                    read,
                    inr (
                        send_panics tmw task is_valid metadata priority s'
                          (ground (arith, got, checked, read, stored, h))),
                  )
                ]
          ]
        ]
      ]
