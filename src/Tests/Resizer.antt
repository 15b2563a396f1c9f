-- ===== src/Tests/Resizer.antt =====
-- Runs of the image resizer on a storage in memory, with two resolutions.
use Prim.Native.String.{String}
use dwh.Base.{
  ℕ, ◌≡◌, refl, true, false, Option, none, some, [], ◌∷◌, ◌<>◌, str_eq, ◌==◌, if◌then◌else◌,
}
use dwh.Common.Config.{Resolution}
use dwh.Common.Queue.{TaskInfo, Json, object, unmarshal}
use dwh.Env.Action.{ok}
use dwh.Env.Calls.{reply, failure, fetched}
use dwh.ImageStorage.{
  Bytes, Disk, absent, plain, ImgStorage, get_check_file, store_img, glob_names, make_dir,
  write_image, remove_old, key_digest,
}
use dwh.ImageStorage.Handlers.{
  marshal_response, unmarshal_response, store_handler, get_check_sum_handler,
}
use dwh.ImageResizer.{
  Host, zipped, ImageProcessingWorker, check_request, check_img_existence, send_image,
  check_and_send_image, resize_and_send_raster_image, send_all,
}
use dwh.ImageStorage.Stored.{IsOrdinary}
use dwh.ImageResizer.Processing.{get_image, decode_image, decode_format, process_message}
use dwh.ImageResizer.Service.{Network, answered, refused, storage_service}
use dwh.ImageResizer.Stored.{IsComplete, process_message_stores}
use dwh.ImageResizer.Faults.{resend_removes}

abbrev spell_bytes : Bytes → String
spell_bytes [] = "."
spell_bytes (b ∷ l) = "x" <> spell_bytes l

abbrev spell : ℕ → String
spell n = if n == 8 then "8" else "16"

-- Images are their widths.
abbrev web : Host
web = record {
  Image = ℕ;
  get = λ u. fetched (7 ∷ []);
  is_svg = λ b. false;
  is_image = λ b. true;
  match = λ b. reply "image/png";
  bmp = λ b. failure "bmp";
  webp = λ b. failure "webp";
  tiff = λ b. failure "tiff";
  jpeg = λ b. failure "jpeg";
  gif = λ b. failure "gif";
  png = λ b. reply 5;
  resize = λ i w h n. w;
  encode = λ n. reply (n ∷ []);
  gzip = zipped;
  md5 = λ b. b;
  decimal = spell;
}

abbrev machine : dwh.ImageStorage.Host
machine = record {
  md5 = λ b. b;
  hex = spell_bytes;
  bytes = λ s. if str_eq s "alice_t_8_8" then 1 ∷ [] else [];
  decimal = spell;
  gunzip = plain;
  stat_error = λ o. "no such file";
  stat_fault = λ o. if str_eq o "locked" then some "permission denied" else none;
  stat_file_fault = λ o p s. none;
  glob_dirs = λ o d. if str_eq o "[" then failure "syntax error in pattern" else reply (o ∷ []);
  mkdir_error = λ o. none;
  remove_path_error = λ o. none;
  write_error = λ o f. none;
  remove_error = λ o f. none;
}

alice-IsOrdinary : IsOrdinary machine "alice"
alice-IsOrdinary = (refl, λ p s. refl, λ d. refl)

abbrev settings : ImgStorage
settings = record { option_store_compressed = false }

abbrev network : Network
network = record { check = λ q. answered; store = λ q. answered }

abbrev cut_network : Network
cut_network = record { check = λ q. refused "timeout"; store = λ q. answered }

abbrev small : Resolution
small = record { width = 8; height = 8 }

abbrev large : Resolution
large = record { width = 16; height = 16 }

abbrev worker : ImageProcessingWorker
worker = record { interpolation_method = 2; resolutions = small ∷ large ∷ [] }

abbrev job : Json
job = ("owner", "alice") ∷ ("token_id", "t") ∷ ("url", "uri") ∷ []

abbrev empty_disk : Disk
empty_disk = λ o. absent

process_message_stores_example :
    (ba : Bytes) × (get_image web (unmarshal job).url ≡ reply ba)
    × (image : Option ℕ) × (decode_image web ba ≡ reply image)
    × IsComplete web machine worker ba image
        (unmarshal job)
        (process_message web
          (storage_service machine settings network)
          worker
          (object job)
          empty_disk).1
unfolding process_message unmarshal get_image decode_image decode_format send_all
    resize_and_send_raster_image check_and_send_image check_img_existence send_image
    marshal_response unmarshal_response store_handler get_check_sum_handler store_img glob_names
    make_dir write_image remove_old key_digest get_check_file
process_message_stores_example =
    process_message_stores web machine settings network (λ b z h. cc) (λ b. refl) (λ o. refl)
      (λ o. refl) (λ o f. refl) (λ o f. refl) (λ q. refl) worker job empty_disk alice-IsOrdinary
      (((λ e. cc), tt), (tt, tt)) refl

abbrev info : TaskInfo
info = record { owner = "alice"; token_id = "t"; url = "uri" }

abbrev stored_once : Disk
stored_once =
    (check_and_send_image web (storage_service machine settings network) (8 ∷ []) small info
      empty_disk).1

resend_removes_example :
    ((check_and_send_image web
        (storage_service machine settings cut_network)
        (8 ∷ [])
        small
        info
        stored_once).0
      ≡ ok tt)
    × (get_check_file machine
          (check_request web (8 ∷ []) small info)
          (check_and_send_image web
            (storage_service machine settings cut_network)
            (8 ∷ [])
            small
            info
            stored_once).1
        ≡ false)
unfolding check_and_send_image check_img_existence send_image marshal_response unmarshal_response
    store_handler get_check_sum_handler store_img glob_names make_dir write_image remove_old
    key_digest get_check_file
resend_removes_example =
    resend_removes web machine settings cut_network (8 ∷ []) (8 ∷ []) small info stored_once
      "timeout" (λ b z h. cc) (λ b. refl) (λ o. refl) (λ o. refl) (λ o f. refl) (λ o f. refl)
      alice-IsOrdinary refl refl refl refl
