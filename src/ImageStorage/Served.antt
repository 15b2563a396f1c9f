-- ===== src/ImageStorage/Served.antt =====
-- What LoadHandler of x/imgstorage/handlers.go serves after StoreHandler has stored an image.
use Prim.Native.String.{String}
use dwh.Base.{
  ◌≡◌, refl, ap, sym, ◌∙◌, Bool, true, false, not, List, [], ◌∷◌, arith, str_eq, eq_iff, eq_refl,
  select, All, All-mono,
}
use dwh.Env.Action.{ok}
use dwh.Env.Calls.{Reply, reply}
use dwh.ImageStorage.{
  Bytes, ImageFile, dir, Disk, Integer, positive, plain, Host, ImageStoreRequest,
  ImageCheckSumRequest, get_check_file, ImgStorage, matching, glob, write_file, delete_file,
  has_file, names_in, glob_names, key_digest, store_img, load_img,
}
use dwh.ImageStorage.Stored.{
  has_file-glob, deleted, replaced, stored_file, IsOrdinary, glob_done, store_done,
  get_check_file-eq-has_image,
}
use dwh.ImageStorage.Handlers.{request, answer, served, LoadQuery, store_handler, load_handler}

abbrev listed : List ImageFile → ImageFile → Bool
listed names g = has_file g.prefix g.sum names

select-select_delete :
    (v : ImageFile) (names files : List ImageFile)
    → select (λ g. not (listed names g)) (delete_file v files)
      ≡ select (λ g. not (listed (v ∷ names) g)) files
select-select_delete v names [] = refl
select-select_delete v names (g ∷ files) = ground (arith, select-select_delete v names files)

select_all : (files : List ImageFile) → select (λ g. not (listed [] g)) files ≡ files
select_all [] = refl
select_all (g ∷ files) = ap (◌∷◌ g) (select_all files)

deleted-select :
    (names files : List ImageFile) → deleted names files ≡ select (λ g. not (listed names g)) files
deleted-select [] files = sym (select_all files)
deleted-select (v ∷ names) files =
    deleted-select names (delete_file v files) ∙ select-select_delete v names files

listed_self : (files : List ImageFile) → All (λ g. listed files g ≡ true) files
listed_self [] = tt
listed_self (f ∷ files) = (
  ground (arith, eq_refl f.prefix, eq_refl f.sum),
  All-mono files (λ g h. ground (arith, h)) (listed_self files),
)

-- Only the new file is left under its key, if it was not there.
matching-select :
    (f : ImageFile) (names files : List ImageFile)
    → listed names f ≡ false
    → listed files f ≡ false
    → All (λ g. str_eq g.prefix f.prefix ≡ true → listed names g ≡ true) files
    → matching f.prefix (select (λ g. not (listed names g)) (write_file f files)) ≡ f ∷ []
matching-select f names [] hn hf all = ground (arith, hn, eq_refl f.prefix)
matching-select f names (g ∷ files) hn hf all = ground (
  arith,
  all.0,
  matching-select f names files hn,
  eq_iff f.prefix g.prefix,
  eq_iff f.sum g.sum,
  all.1,
)

-- The check that asks for an image.
abbrev pub check_of : Host → ImageStoreRequest → Bytes → ImageCheckSumRequest
check_of H req ba = record {
  owner = req.owner;
  token_id = req.token_id;
  width = req.width;
  height = req.height;
  md5_sum = H.md5 ba;
}

glob-replaced :
    (f : ImageFile) (files : List ImageFile)
    → listed files f ≡ false
    → glob f.prefix (replaced f files) ≡ f ∷ []
glob-replaced f files new =
    let old = glob f.prefix files in
    let all : All (λ g. str_eq g.prefix f.prefix ≡ true → listed old g ≡ true) files =
      All-mono files
        (λ g here same. ground (
          arith,
          here,
          has_file-glob g.prefix g.sum f.prefix files,
          eq_iff g.prefix f.prefix,
          eq_refl f.prefix,
        ))
        (listed_self files) in
    ground (
      arith,
      deleted-select old (write_file f files),
      matching-select f old files (ground (arith, has_file-glob f.prefix f.sum f.prefix files)) new
          all,
    )

module _ (H : Host) where
  -- What filepath.Glob finds for the key of an image that was stored and is new.
  stored_names :
      (ims : ImgStorage) (req : ImageStoreRequest) (ba : Bytes) (d : Disk)
      → let d' = (store_img H ims req d).1 in
        IsOrdinary H req.owner
        → H.gunzip req.image_bytes ≡ plain ba
        → (store_img H ims req d).0 ≡ ok tt
        → get_check_file H (check_of H req ba) d ≡ false
        → (files : List ImageFile) × (d' req.owner ≡ dir files)
          × (glob_names H req.owner (key_digest H req.owner req.token_id req.width req.height) d'
              ≡ reply ((req.owner, stored_file H ims req ba) ∷ []))
  stored_names ims req ba d plain_path zip h new =
      let f = stored_file H ims req ba in
      let d' = (store_img H ims req d).1 in
      let (files, before, left, others) = store_done H ims req ba d plain_path zip h in
      let unseen : listed files f ≡ false =
        before f.prefix f.sum
        ∙ (sym (get_check_file-eq-has_image H (check_of H req ba) d plain_path) ∙ new) in
      (
        replaced f files,
        left,
        glob_done H req.owner f.prefix (replaced f files) d' plain_path left
            ∙ ap (λ l. reply (names_in req.owner l)) (glob-replaced f files unseen),
      )

  -- An image that StoreHandler has stored without an error, and that was not there before, is what
  -- LoadHandler serves for its owner, token and resolution, whatever was stored under that key
  -- before, where the owner is ordinary: `os.Stat` of the path gives no error but that nothing is
  -- there, and filepath.Glob takes the path literally.
  pub store_load_round_trip :
      (ims : ImgStorage) (atoi : String → Reply Integer) (req : ImageStoreRequest) (q : LoadQuery)
      (ba : Bytes) (d : Disk)
      → IsOrdinary H req.owner
      → H.gunzip req.image_bytes ≡ plain ba
      → (store_img H ims req d).0 ≡ ok tt
      → get_check_file H (check_of H req ba) d ≡ false
      → q.owner ≡ req.owner
      → q.img_type ≡ req.token_id
      → atoi q.width ≡ reply (positive req.width)
      → atoi q.height ≡ reply (positive req.height)
      → load_handler H atoi q (store_handler H ims (request req) d).1
        ≡ answer 200 (served (stored_file H ims req ba))
  unfolding store_handler load_handler load_img key_digest
  store_load_round_trip ims atoi req q ba d plain_path zip h new owner token width height =
      let (files, there, only) = stored_names ims req ba d plain_path zip h new in
      ground (arith, there, only, owner, token, width, height, plain_path.0)
