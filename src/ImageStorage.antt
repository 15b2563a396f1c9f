-- ===== src/ImageStorage.antt =====
-- x/imgstorage/storage.go: the directory of an owner's images, and what storing and looking up an
-- image does to it. The HTTP handlers around it are in ImageStorage/Handlers.antt.
pub mod Stored
pub mod Handlers
pub mod Served
use Prim.Native.Nat.{Ordering}
use Prim.Native.String.{String, compare}
use dwh.Base.{
  ℕ, Bool, true, false, not, ◌&&◌, Option, none, some, List, [], ◌∷◌, ⊤, ◌<>◌, str_eq,
  if◌then◌else◌, select, map, ◌++◌,
}
use dwh.Common.Config.{DwhCommonServiceConfig}
use dwh.Env.Action.{Outcome, ok, err, panic, errorf}
use dwh.Env.Calls.{Reply, reply, failure}

abbrev pub Bytes : Type 0
Bytes = List ℕ

-- A file of an owner's directory. Its name is the digest of the image's key and that of the image,
-- both of 32 digits, joined by a plus sign.
pub record ImageFile : Type 0 where
  pub prefix : String
  pub sum : String
  pub content : Bytes

-- What `os.Stat` finds at an owner's path. A directory has distinct names.
pub data Entry : Type 0 where
  absent : Entry
  file : Entry
  dir : List ImageFile → Entry

-- The storage path, by owner.
abbrev pub Disk : Type 0
Disk = String → Entry

-- An int.
pub data Integer : Type 0 where
  positive : ℕ → Integer
  negative : ℕ → Integer

-- gzip.NewReader, ReadAll and Close, by the first that fails.
pub data Gunzip : Type 0 where
  bad_header : String → Gunzip
  bad_body : String → Gunzip
  bad_close : String → Gunzip
  plain : Bytes → Gunzip

-- The standard library and the operating system: digests, verbs of fmt, and the errors of calls. A
-- call that fails changes nothing.
pub record Host : Type 0 where
  pub md5 : Bytes → Bytes
  pub hex : Bytes → String
  pub bytes : String → Bytes
  pub decimal : ℕ → String
  pub gunzip : Bytes → Gunzip
  pub stat_error : String → String
  -- an error of `os.Stat` of an owner's path, or of a file there, that is not os.ErrNotExist
  pub stat_fault : String → Option String
  pub stat_file_fault : String → String → String → Option String
  -- the directories that an owner's path matches as a pattern of filepath.Glob, or the text of
  -- filepath.ErrBadPattern: the path is not quoted
  pub glob_dirs : String → Disk → Reply (List String)
  pub mkdir_error : String → Option String
  pub remove_path_error : String → Option String
  pub write_error : String → ImageFile → Option String
  pub remove_error : String → ImageFile → Option String

pub record ImageStoreRequest : Type 0 where
  pub owner : String
  pub token_id : String
  pub width : ℕ
  pub height : ℕ
  pub image_bytes : Bytes

pub record ImageCheckSumRequest : Type 0 where
  pub owner : String
  pub token_id : String
  pub width : ℕ
  pub height : ℕ
  pub md5_sum : Bytes

pub record ImgStorage : Type 0 where
  pub option_store_compressed : Bool

-- `NewImgStorage`; the storage path is where the disk is.
unfoldable pub new_img_storage : DwhCommonServiceConfig → ImgStorage
new_img_storage cfg = record {
  option_store_compressed = cfg.img_storage_service.storage_compressed_option;
}

abbrev pub set_entry : String → Entry → Disk → Disk
set_entry owner e d o = if str_eq o owner then e else d o

abbrev pub same_name : ImageFile → ImageFile → Bool
same_name f g = str_eq f.prefix g.prefix && str_eq f.sum g.sum

abbrev pub matching : String → List ImageFile → List ImageFile
matching prefix = select (λ f. str_eq f.prefix prefix)

-- Files of one prefix come in the order of their names by the order of their sums.
abbrev pub insert_by_name : ImageFile → List ImageFile → List ImageFile
insert_by_name f [] = f ∷ []
insert_by_name f (g ∷ gs) =
    let rest = insert_by_name f gs in
    elim (compare f.sum g.sum) [ Ordering.lt ↦ f ∷ g ∷ gs | _ ↦ g ∷ rest ]

abbrev pub sort_by_name : List ImageFile → List ImageFile
sort_by_name [] = []
sort_by_name (f ∷ fs) = insert_by_name f (sort_by_name fs)

-- The names of a directory that filepath.Glob finds for prefix + "*": they are sorted.
abbrev pub glob : String → List ImageFile → List ImageFile
glob prefix files = sort_by_name (matching prefix files)

-- ioutil.WriteFile
abbrev pub write_file : ImageFile → List ImageFile → List ImageFile
write_file f [] = f ∷ []
write_file f (g ∷ gs) = let rest = write_file f gs in if same_name f g then f ∷ gs else g ∷ rest

abbrev pub delete_file : ImageFile → List ImageFile → List ImageFile
delete_file f = select (λ g. not (same_name f g))

abbrev pub files_of : Entry → List ImageFile
files_of absent = []
files_of file = []
files_of (dir files) = files

-- A path below the storage's, by its owner and its file.
abbrev pub Name : Type 0
Name = String × ImageFile

abbrev pub names_in : String → List ImageFile → List Name
names_in owner files = map (λ f. (owner, f)) files

-- What is found in each of some directories.
abbrev pub names_of : String → List String → Disk → List Name
names_of prefix [] d = []
names_of prefix (owner ∷ owners) d =
    names_in owner (glob prefix (files_of (d owner))) ++ names_of prefix owners d

-- What is left at a path once a file of it is removed.
abbrev pub remove_file : ImageFile → Entry → Entry
remove_file f absent = absent
remove_file f file = file
remove_file f (dir files) = dir (delete_file f files)

abbrev pub has_file : String → String → List ImageFile → Bool
has_file prefix sum [] = false
has_file prefix sum (f ∷ fs) =
    let rest = has_file prefix sum fs in
    if str_eq f.prefix prefix && str_eq f.sum sum then true else rest

module _ (H : Host) where
  -- `%x` of md5.Sum of a name in FileNameFormat, whose verbs for the resolution are texts here
  abbrev pub name_digest : String → String → String → String → String
  name_digest owner token_id width height =
      H.hex (H.md5 (H.bytes (owner <> ("_" <> (token_id <> ("_" <> (width <> ("_" <> height))))))))

  unfoldable pub key_digest : String → String → ℕ → ℕ → String
  key_digest owner token_id width height =
      name_digest owner token_id (H.decimal width) (H.decimal height)

  -- `%d` of an int
  abbrev pub int_text : Integer → String
  int_text (positive n) = H.decimal n
  int_text (negative n) = "-" <> H.decimal n

  -- filepath.Glob of an owner's path, a prefix and "*"
  unfoldable pub glob_names : String → String → Disk → Reply (List Name)
  glob_names owner prefix d = elim (H.glob_dirs owner d) [
    | failure e ↦ failure e
    | reply owners ↦ reply (names_of prefix owners d)
  ]

  -- The directory is made if it is missing, and in place of a file. After any other error of
  -- `os.Stat` nothing is made, and `storeImg` goes on.
  unfoldable pub make_dir : String → Disk → Outcome ⊤ × Disk
  make_dir owner d = elim (H.stat_fault owner) [
    | some _ ↦ (ok tt, d)
    | none ↦ elim (d owner) [
      | dir files ↦ (ok tt, d)
      | absent ↦ elim (H.mkdir_error owner) [
        | some e ↦ (err (errorf ("could not mkDir, error: " <> e)), d)
        | none ↦ (ok tt, set_entry owner (dir []) d)
      ]
      | file ↦ elim (H.remove_path_error owner) [
        | some e ↦ (err (errorf ("could not rm file, error: " <> e)), d)
        | none ↦ elim (H.mkdir_error owner) [
          | some e ↦ (
            err (errorf ("could not mkDir instead of file, error: " <> e)),
            set_entry owner absent d,
          )
          | none ↦ (ok tt, set_entry owner (dir []) d)
        ]
      ]
    ]
  ]

  -- The loop over the old names.
  unfoldable pub remove_old : List Name → Disk → Outcome ⊤ × Disk
  remove_old [] d = (ok tt, d)
  remove_old ((owner, v) ∷ names) d = elim (H.remove_error owner v) [
    | some e ↦ (err (errorf ("could not remove old file, error: " <> e)), d)
    | none ↦ remove_old names (set_entry owner (remove_file v (d owner)) d)
  ]

  -- The write of the new file, which fails where there is no directory, and the removal of those
  -- that were found before.
  unfoldable pub write_image : String → ImageFile → List Name → Disk → Outcome ⊤ × Disk
  unfolding remove_old
  write_image owner f names d = elim (d owner) [
    | absent ↦ (err (errorf ("could not write file, error: " <> H.stat_error owner)), d)
    | file ↦ (err (errorf ("could not write file, error: " <> H.stat_error owner)), d)
    | dir files ↦ elim (H.write_error owner f) [
      | some e ↦ (err (errorf ("could not write file, error: " <> e)), d)
      | none ↦ remove_old names (set_entry owner (dir (write_file f files)) d)
    ]
  ]

  unfoldable pub store_img : ImgStorage → ImageStoreRequest → Disk → Outcome ⊤ × Disk
  unfolding make_dir glob_names write_image
  store_img ims req d =
      let (r, d1) = make_dir req.owner d in
      let prefix = key_digest req.owner req.token_id req.width req.height in
      elim r [
        | err e ↦ (err e, d1)
        | panic ↦ (panic, d1)
        | ok _ ↦ elim (glob_names req.owner prefix d1) [
          | failure e ↦ (err (errorf ("could not search in directory, error: " <> e)), d1)
          | reply names ↦ elim (H.gunzip req.image_bytes) [
            | bad_header e ↦ (err (errorf ("could not create gzip reader, error: " <> e)), d1)
            | bad_body e ↦ (err (errorf ("could not read from gzip, error: " <> e)), d1)
            | bad_close e ↦ (err (errorf ("could not close gzip reader, error: " <> e)), d1)
            | plain ba ↦
                write_image req.owner
                  (record {
                    prefix = prefix;
                    sum = H.hex (H.md5 ba);
                    content = if ims.option_store_compressed then req.image_bytes else ba;
                  })
                  names d1
          ]
        ]
      ]

  -- The path that is served: the first file of the key, or of the key without a resolution. After
  -- an error of `os.Stat` other than os.ErrNotExist a nil pointer is dereferenced.
  unfoldable pub load_img : String → String → Integer → Integer → Disk → Outcome ImageFile
  unfolding glob_names
  load_img owner img_type width height d =
      let second = glob_names owner (name_digest owner img_type (H.decimal 0) (H.decimal 0)) d in
      elim (H.stat_fault owner) [
        | some _ ↦ panic
        | none ↦ elim (d owner) [
          | absent ↦ err (errorf ("dir not found error: " <> H.stat_error owner))
          | file ↦ err (errorf "error: dir not found")
          | dir _ ↦
              elim (glob_names owner (name_digest owner img_type (int_text width) (int_text height))
                d) [
                  | failure e ↦ err (errorf ("glob error: " <> e))
                  | reply names ↦ elim names [
                    | f ∷ _ ↦ ok f.1
                    | [] ↦ elim second [
                      | failure e ↦ err (errorf ("glob error: " <> e))
                      | reply others ↦ elim others [
                        | f ∷ _ ↦ ok f.1
                        | [] ↦ err (errorf "no files found")
                      ]
                    ]
                  ]
                ]
        ]
      ]

  -- `os.Stat` of a file: any error but os.ErrNotExist counts as a file that is there.
  abbrev pub stat_file : String → String → String → Disk → Bool
  stat_file owner prefix sum d = elim (H.stat_file_fault owner prefix sum) [
    | some _ ↦ true
    | none ↦ elim (d owner) [ absent ↦ false | file ↦ true | dir files ↦ has_file prefix sum files ]
  ]

  unfoldable pub get_check_file : ImageCheckSumRequest → Disk → Bool
  get_check_file req d =
      let there =
        stat_file req.owner (key_digest req.owner req.token_id req.width req.height)
          (H.hex req.md5_sum) d in
      elim (H.stat_fault req.owner) [
        | some _ ↦ there
        | none ↦ elim (d req.owner) [ absent ↦ false | file ↦ false | dir _ ↦ there ]
      ]
