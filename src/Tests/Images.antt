-- ===== src/Tests/Images.antt =====
-- A run of the image storage: an image is stored twice.
use Prim.Native.String.{String}
use dwh.Base.{◌≡◌, refl, true, false, none, some, [], ◌∷◌, ◌<>◌, str_eq, if◌then◌else◌}
use dwh.Env.Calls.{Reply, reply, failure}
use dwh.ImageStorage.{
  Bytes, Disk, absent, Host, plain, ImageStoreRequest, ImageCheckSumRequest, ImgStorage, store_img,
  Integer, positive, get_check_file, make_dir, write_image, remove_old, key_digest, glob_names,
}
use dwh.ImageStorage.Handlers.{request, answer, served, LoadQuery, store_handler, load_handler}
use dwh.ImageStorage.Served.{store_load_round_trip}
use dwh.ImageStorage.Stored.{IsOrdinary, stored_file, check_after_store}

-- Digests that spell the number of bytes.
abbrev spell_bytes : Bytes → String
spell_bytes [] = "."
spell_bytes (b ∷ l) = "x" <> spell_bytes l

abbrev test_host : Host
test_host = record {
  md5 = λ b. b;
  hex = spell_bytes;
  bytes = λ s. [];
  decimal = λ n. "0";
  gunzip = plain;
  stat_error = λ o. "no such file";
  stat_fault = λ o. if str_eq o "locked" then some "permission denied" else none;
  stat_file_fault = λ o p s. none;
  glob_dirs = λ o d. if str_eq o "[" then failure "syntax error in pattern" else reply (o ∷ []);
  mkdir_error = λ o. none;
  remove_path_error = λ o. none;
  write_error = λ o f. none;
  remove_error = λ o f. none;
}

alice-IsOrdinary : IsOrdinary test_host "alice"
alice-IsOrdinary = (refl, λ p s. refl, λ d. refl)

abbrev picture : ImageStoreRequest
picture = record { owner = "alice"; token_id = "t"; width = 8; height = 8; image_bytes = 1 ∷ [] }

abbrev question : ImageCheckSumRequest
question = record { owner = "alice"; token_id = "t"; width = 8; height = 8; md5_sum = 1 ∷ [] }

abbrev storage : ImgStorage
storage = record { option_store_compressed = true }

abbrev once : Disk
once = (store_img test_host storage picture (λ o. absent)).1

check_after_store_example :
    get_check_file test_host question (store_img test_host storage picture once).1 ≡ false
unfolding store_img glob_names make_dir write_image remove_old key_digest get_check_file
check_after_store_example =
    check_after_store test_host storage picture question (1 ∷ []) once alice-IsOrdinary
      alice-IsOrdinary refl refl

abbrev atoi : String → Reply Integer
atoi s = if str_eq s "8" then reply (positive 8) else failure "invalid syntax"

abbrev query : LoadQuery
query = record { owner = "alice"; img_type = "t"; width = "8"; height = "8" }

store_load_round_trip_example :
    load_handler test_host atoi query
      (store_handler test_host storage (request picture) (λ o. absent)).1
    ≡ answer 200 (served (stored_file test_host storage picture (1 ∷ [])))
unfolding store_img glob_names make_dir write_image remove_old key_digest get_check_file
store_load_round_trip_example =
    store_load_round_trip test_host storage atoi picture query (1 ∷ []) (λ o. absent)
      alice-IsOrdinary refl refl refl refl refl refl refl
