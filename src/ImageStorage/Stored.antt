-- ===== src/ImageStorage/Stored.antt =====
-- Which images the service has after it has stored one.
use Prim.Native.String.{String}
use mathlib.Core.List.{append-nil}
use dwh.Base.{
  ◌≡◌, ◌⊎◌, refl, ap, sym, ◌∙◌, Bool, false, not, ◌&&◌, ◌||◌, none, List, [], ◌∷◌, arith, str_eq,
  eq_iff, eq_refl, if◌then◌else◌, Bool-cases, Option-cases, inl, inr,
}
use dwh.Env.Action.{ok, Outcome-cases}
use dwh.Env.Calls.{reply}
use dwh.ImageStorage.{
  Bytes, ImageFile, Entry, absent, file, dir, Disk, plain, Host, ImageStoreRequest,
  ImageCheckSumRequest, ImgStorage, set_entry, matching, insert_by_name, sort_by_name, glob,
  write_file, delete_file, remove_file, has_file, names_in, glob_names, key_digest, make_dir,
  remove_old, write_image, store_img, get_check_file,
}

abbrev named : String → String → ImageFile → Bool
named p s f = str_eq f.prefix p && str_eq f.sum s

has_file-write_file :
    (p s : String) (f : ImageFile) (files : List ImageFile)
    → has_file p s (write_file f files) ≡ (has_file p s files || named p s f)
has_file-write_file p s f [] = ground arith
has_file-write_file p s f (g ∷ gs) =
    ground (arith, has_file-write_file p s f gs, eq_iff f.prefix g.prefix, eq_iff f.sum g.sum)

has_file-delete_file :
    (p s : String) (f : ImageFile) (files : List ImageFile)
    → has_file p s (delete_file f files) ≡ (has_file p s files && not (named p s f))
has_file-delete_file p s f [] = refl
has_file-delete_file p s f (g ∷ gs) = ground (
  arith,
  has_file-delete_file p s f gs,
  eq_iff f.prefix g.prefix,
  eq_iff f.sum g.sum,
  eq_iff f.prefix p,
  eq_iff f.sum s,
  eq_iff g.prefix p,
  eq_iff g.sum s,
)

has_file-matching :
    (p s q : String) (files : List ImageFile)
    → has_file p s (matching q files) ≡ (has_file p s files && str_eq q p)
has_file-matching p s q [] = refl
has_file-matching p s q (g ∷ gs) =
    ground (arith, has_file-matching p s q gs, eq_iff g.prefix q, eq_iff g.prefix p, eq_iff q p)

has_file-insert_by_name :
    (p s : String) (f : ImageFile) (files : List ImageFile)
    → has_file p s (insert_by_name f files) ≡ (named p s f || has_file p s files)
has_file-insert_by_name p s f [] = ground arith
has_file-insert_by_name p s f (g ∷ gs) = ground (arith, has_file-insert_by_name p s f gs)

has_file-sort_by_name :
    (p s : String) (files : List ImageFile) → has_file p s (sort_by_name files) ≡ has_file p s files
has_file-sort_by_name p s [] = refl
has_file-sort_by_name p s (f ∷ fs) =
    ground (arith, has_file-sort_by_name p s fs, has_file-insert_by_name p s f (sort_by_name fs))

pub has_file-glob :
    (p s q : String) (files : List ImageFile)
    → has_file p s (glob q files) ≡ (has_file p s files && str_eq q p)
has_file-glob p s q files =
    has_file-sort_by_name p s (matching q files) ∙ has_file-matching p s q files

-- The files of a directory once some of them are removed.
abbrev pub deleted : List ImageFile → List ImageFile → List ImageFile
deleted [] files = files
deleted (v ∷ names) files = deleted names (delete_file v files)

has_file-deleted :
    (p s : String) (names files : List ImageFile)
    → has_file p s (deleted names files) ≡ (has_file p s files && not (has_file p s names))
has_file-deleted p s [] files = ground arith
has_file-deleted p s (v ∷ names) files =
    ground
      (arith, has_file-deleted p s names (delete_file v files), has_file-delete_file p s v files)

-- The new file, in place of those that were there under its key.
abbrev pub replaced : ImageFile → List ImageFile → List ImageFile
replaced f files = deleted (glob f.prefix files) (write_file f files)

-- Under the key of the new image there is that image, unless it was there before; under every
-- other key there is what was there.
has_file-replaced :
    (p s : String) (f : ImageFile) (files : List ImageFile)
    → has_file p s (replaced f files) ≡ (
        if str_eq f.prefix p
        then str_eq f.sum s && not (has_file p s files)
        else has_file p s files)
has_file-replaced p s f files = ground (
  arith,
  has_file-deleted p s (glob f.prefix files) (write_file f files),
  has_file-write_file p s f files,
  has_file-glob p s f.prefix files,
)

-- The image of an owner under a key and a digest.
abbrev pub entry_has : String → String → Entry → Bool
entry_has p s absent = false
entry_has p s file = false
entry_has p s (dir files) = has_file p s files

abbrev pub has_image : String → String → String → Disk → Bool
has_image owner p s d = entry_has p s (d owner)

-- The file that an image is stored in.
abbrev pub stored_file : Host → ImgStorage → ImageStoreRequest → Bytes → ImageFile
stored_file H ims req ba = record {
  prefix = key_digest H req.owner req.token_id req.width req.height;
  sum = H.hex (H.md5 ba);
  content = if ims.option_store_compressed then req.image_bytes else ba;
}

Entry-cases :
    (e : Entry) → (e ≡ absent) ⊎ ((e ≡ file) ⊎ ((files : List ImageFile) × (e ≡ dir files)))
Entry-cases absent = inl refl
Entry-cases file = inr (inl refl)
Entry-cases (dir files) = inr (inr (files, refl))

module _ (H : Host) where
  -- An owner whose path and files `os.Stat` can look at, and whose path filepath.Glob takes
  -- literally, as it does where there is no *, ?, [ or \\ in it.
  abbrev pub IsOrdinary : String → Type 0
  IsOrdinary owner =
      (H.stat_fault owner ≡ none)
      × ((p s : String) → H.stat_file_fault owner p s ≡ none)
      × ((d : Disk) → H.glob_dirs owner d ≡ reply (owner ∷ []))

  -- A directory after the removal of some of its files; the others are as they were.
  remove_old_done :
      (owner : String) (names files : List ImageFile) (d : Disk)
      → d owner ≡ dir files
      → (remove_old H (names_in owner names) d).0 ≡ ok tt
      → ((remove_old H (names_in owner names) d).1 owner ≡ dir (deleted names files))
        × ((o : String)
            → str_eq o owner ≡ false
            → (remove_old H (names_in owner names) d).1 o ≡ d o)
  unfolding remove_old
  remove_old_done owner [] files d there h = (there, λ o other. refl)
  remove_old_done owner (v ∷ names) files d there h =
      let d1 = set_entry owner (remove_file v (d owner)) d in
      let next : d1 owner ≡ dir (delete_file v files) = ground (arith, there, eq_refl owner) in
      elim (Option-cases (H.remove_error owner v)) [
        | inr (e, failed) ↦ absurd (ground (arith, failed, h))
        | inl fine ↦
            let same : remove_old H (names_in owner (v ∷ names)) d
                ≡ remove_old H (names_in owner names) d1 =
              ground (arith, fine) in
            let (left, others) =
              remove_old_done owner names (delete_file v files) d1 next
                (ap (λ x. x.0) (sym same) ∙ h) in
            (
              ap (λ x. x.1 owner) same ∙ left,
              λ o other. ap (λ x. x.1 o) same ∙ (others o other ∙ ground (arith, other)),
            )
      ]

  pub glob_done :
      (owner prefix : String) (files : List ImageFile) (d : Disk)
      → IsOrdinary owner
      → d owner ≡ dir files
      → glob_names H owner prefix d ≡ reply (names_in owner (glob prefix files))
  unfolding glob_names
  glob_done owner prefix files d (stat, stats, dirs) there =
      ground (arith, dirs d, there, append-nil (names_in owner (glob prefix files)))

  write_done :
      (owner : String) (f : ImageFile) (files : List ImageFile) (d : Disk)
      → let r = write_image H owner f (names_in owner (glob f.prefix files)) d in
        d owner ≡ dir files
        → r.0 ≡ ok tt
        → (r.1 owner ≡ dir (replaced f files))
          × ((o : String) → str_eq o owner ≡ false → r.1 o ≡ d o)
  unfolding write_image
  write_done owner f files d there h =
      let d1 = set_entry owner (dir (write_file f files)) d in
      let old = glob f.prefix files in
      let next : d1 owner ≡ dir (write_file f files) = ground (arith, eq_refl owner) in
      elim (Option-cases (H.write_error owner f)) [
        | inr (e, failed) ↦ absurd (ground (arith, there, failed, h))
        | inl fine ↦
            let same : write_image H owner f (names_in owner old) d
                ≡ remove_old H (names_in owner old) d1 =
              ground (arith, there, fine) in
            let (left, others) =
              remove_old_done owner old (write_file f files) d1 next
                (ap (λ x. x.0) (sym same) ∙ h) in
            (
              ap (λ x. x.1 owner) same ∙ left,
              λ o other. ap (λ x. x.1 o) same ∙ (others o other ∙ ground (arith, other)),
            )
      ]

  make_dir_done :
      (owner : String) (d : Disk)
      → H.stat_fault owner ≡ none
      → (make_dir H owner d).0 ≡ ok tt
      → (files : List ImageFile) × ((make_dir H owner d).1 owner ≡ dir files)
        × ((p s : String) → has_file p s files ≡ has_image owner p s d)
        × ((o : String) → str_eq o owner ≡ false → (make_dir H owner d).1 o ≡ d o)
  unfolding make_dir
  make_dir_done owner d stat h = elim (Entry-cases (d owner)) [
    | inl there ↦ (
      [],
      ground (arith, stat, there, h, eq_refl owner),
      λ p s. ground (arith, there),
      λ o other. ground (arith, stat, there, h, other),
    )
    | inr (inl there) ↦ (
      [],
      ground (arith, stat, there, h, eq_refl owner),
      λ p s. ground (arith, there),
      λ o other. ground (arith, stat, there, h, other),
    )
    | inr (inr (files, there)) ↦ (
      files,
      ground (arith, stat, there, h),
      λ p s. ground (arith, there),
      λ o other. ground (arith, stat, there, h),
    )
  ]

  -- The directory of the owner after an image is stored, by what was in it before.
  pub store_done :
      (ims : ImgStorage) (req : ImageStoreRequest) (ba : Bytes) (d : Disk)
      → IsOrdinary req.owner
      → H.gunzip req.image_bytes ≡ plain ba
      → (store_img H ims req d).0 ≡ ok tt
      → (files : List ImageFile) × ((p s : String) → has_file p s files ≡ has_image req.owner p s d)
        × ((store_img H ims req d).1 req.owner ≡ dir (replaced (stored_file H ims req ba) files))
        × ((o : String) → str_eq o req.owner ≡ false → (store_img H ims req d).1 o ≡ d o)
  unfolding store_img
  store_done ims req ba d plain_path zip h = elim (Outcome-cases (make_dir H req.owner d).0) [
    | inr (inl (e, made)) ↦ absurd (ground (arith, made, h))
    | inr (inr made) ↦ absurd (ground (arith, made, h))
    | inl (_, made) ↦
        let d1 = (make_dir H req.owner d).1 in
        let f = stored_file H ims req ba in
        let (files, there, before, kept) = make_dir_done req.owner d plain_path.0 made in
        let found = glob_done req.owner f.prefix files d1 plain_path there in
        let result : store_img H ims req d
            ≡ write_image H req.owner f (names_in req.owner (glob f.prefix files)) d1 =
          ground (arith, made, found, zip) in
        let (left, others) =
          write_done req.owner f files d1 there (ap (λ x. x.0) (sym result) ∙ h) in
        (
          files,
          before,
          ap (λ x. x.1 req.owner) result ∙ left,
          λ o other. ap (λ x. x.1 o) result ∙ (others o other ∙ kept o other),
        )
  ]

  store_img-has_image :
      (ims : ImgStorage) (req : ImageStoreRequest) (ba : Bytes) (d : Disk) (o p s : String)
      → IsOrdinary req.owner
      → H.gunzip req.image_bytes ≡ plain ba
      → (store_img H ims req d).0 ≡ ok tt
      → has_image o p s (store_img H ims req d).1 ≡ (
          if str_eq o req.owner
            && str_eq (key_digest H req.owner req.token_id req.width req.height) p
          then str_eq (H.hex (H.md5 ba)) s && not (has_image o p s d)
          else has_image o p s d)
  store_img-has_image ims req ba d o p s plain_path zip h =
      let f = stored_file H ims req ba in
      let (files, before, left, others) = store_done ims req ba d plain_path zip h in
      elim (Bool-cases (str_eq o req.owner)) [
        | inl e ↦
            let same : o ≡ req.owner = ground (arith, eq_iff o req.owner) in
            let there : has_file p s files ≡ has_image o p s d =
              before p s ∙ ap (λ x. has_image x p s d) (sym same) in
            let now : has_image o p s (store_img H ims req d).1 ≡ has_file p s (replaced f files) =
              ap (λ x. has_image x p s (store_img H ims req d).1) same ∙ ap (entry_has p s) left in
            now ∙ ground (arith, e, has_file-replaced p s f files, there)
        | inr e ↦ ap (entry_has p s) (others o e) ∙ ground (arith, e)
      ]

  pub get_check_file-eq-has_image :
      (ask : ImageCheckSumRequest) (d : Disk)
      → IsOrdinary ask.owner
      → get_check_file H ask d
        ≡ has_image ask.owner
            (key_digest H ask.owner ask.token_id ask.width ask.height)
            (H.hex ask.md5_sum)
            d
  unfolding get_check_file
  get_check_file-eq-has_image ask d (stat, stats, dirs) =
      let key = key_digest H ask.owner ask.token_id ask.width ask.height in
      ground (arith, stat, stats key (H.hex ask.md5_sum))

  -- For an image of an ordinary owner and a check for an ordinary owner, after the image is stored
  -- without an error, the check for its owner and its key is answered by whether it asks for the
  -- digest of that image, unless that very image had been stored before, in which case it is gone;
  -- every other check is answered as before. Here an owner is ordinary if `os.Stat` gives no error
  -- but that nothing is there for the owner's path and the files in it, and filepath.Glob, which
  -- gets the path unquoted, takes it literally.
  pub check_after_store :
      (ims : ImgStorage) (req : ImageStoreRequest) (ask : ImageCheckSumRequest) (ba : Bytes)
      (d : Disk)
      → IsOrdinary req.owner
      → IsOrdinary ask.owner
      → H.gunzip req.image_bytes ≡ plain ba
      → (store_img H ims req d).0 ≡ ok tt
      → get_check_file H ask (store_img H ims req d).1 ≡ (
          if str_eq ask.owner req.owner
            && str_eq
                (key_digest H req.owner req.token_id req.width req.height)
                (key_digest H ask.owner ask.token_id ask.width ask.height)
          then str_eq (H.hex (H.md5 ba)) (H.hex ask.md5_sum) && not (get_check_file H ask d)
          else get_check_file H ask d)
  check_after_store ims req ask ba d stored_path asked_path zip h = ground (
    arith,
    get_check_file-eq-has_image ask d asked_path,
    get_check_file-eq-has_image ask (store_img H ims req d).1 asked_path,
    store_img-has_image ims req ba d ask.owner
        (key_digest H ask.owner ask.token_id ask.width ask.height) (H.hex ask.md5_sum) stored_path
        zip h,
  )

  remove_old-ok :
      (owner : String) (names : List ImageFile) (d : Disk)
      → ((f : ImageFile) → H.remove_error owner f ≡ none)
      → (remove_old H (names_in owner names) d).0 ≡ ok tt
  unfolding remove_old
  remove_old-ok owner [] d h = refl
  remove_old-ok owner (v ∷ names) d h =
      ground (arith, h v, remove_old-ok owner names (set_entry owner (remove_file v (d owner)) d) h)

  make_dir-ok :
      (owner : String) (d : Disk)
      → H.mkdir_error owner ≡ none
      → H.remove_path_error owner ≡ none
      → (make_dir H owner d).0 ≡ ok tt
  unfolding make_dir
  make_dir-ok owner d mk rm = ground (arith, mk, rm)

  -- Where no call of the operating system fails, every image that can be unzipped is stored
  -- without an error for an ordinary owner, whatever is at the owner's path.
  pub store_img-ok :
      (ims : ImgStorage) (req : ImageStoreRequest) (ba : Bytes) (d : Disk)
      → IsOrdinary req.owner
      → H.gunzip req.image_bytes ≡ plain ba
      → H.mkdir_error req.owner ≡ none
      → H.remove_path_error req.owner ≡ none
      → ((f : ImageFile) → H.write_error req.owner f ≡ none)
      → ((f : ImageFile) → H.remove_error req.owner f ≡ none)
      → (store_img H ims req d).0 ≡ ok tt
  unfolding store_img write_image
  store_img-ok ims req ba d plain_path zip mk rm wr old =
      let d1 = (make_dir H req.owner d).1 in
      let f = stored_file H ims req ba in
      let made = make_dir-ok req.owner d mk rm in
      let (files, there, before, kept) = make_dir_done req.owner d plain_path.0 made in
      let found = glob_done req.owner f.prefix files d1 plain_path there in
      let removed =
        remove_old-ok req.owner (glob f.prefix files)
          (set_entry req.owner (dir (write_file f files)) d1) old in
      ground (arith, made, found, zip, there, wr f, removed)
